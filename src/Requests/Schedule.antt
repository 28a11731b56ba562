-- ===== src/Requests/Schedule.antt =====
-- Callers, executing threads and the thread of `Run` in lib/samehada/request_manager.go, in any order.
use samehada_db.Prelude.{
  ℕ, ◌+◌, ◌^◌, ◌<◌, ◌≡◌, Bool, true, false, Option, none, some, List, [], ◌∷◌, ◌++◌, length, done,
  ◌==◌, ◌||◌,
}
use samehada_db.Requests.{
  QueryRequest, ReqError, ReqResult, RequestManager, in_ch_capacity, new_request_manager,
  append_request, send, receive, dispatch,
}

-- The manager, the requests whose threads run, the callers that did not yet wake the manager (by
-- their channels), the result that `Run` is sending to a caller, and those that callers have.
pub record System : Type 0 where
  pub manager : RequestManager
  pub running : List QueryRequest
  pub waking : List ℕ
  pub delivering : Option ReqResult
  pub delivered : List ReqResult

abbrev pub start : System
start = record {
  manager = new_request_manager;
  running = [];
  waking = [];
  delivering = none;
  delivered = [];
}

-- a thread more, if one was started
abbrev pub started : Option QueryRequest → List QueryRequest → List QueryRequest
started none l = l
started (some qr) l = qr ∷ l

abbrev pub is_waking : ℕ → List ℕ → Bool
is_waking ch [] = false
is_waking ch (c ∷ l) = ch == c || is_waking ch l

-- what `ExecuteSQLForTxnTh` sends for a request
abbrev pub result_of : QueryRequest → ReqError → List ℕ → ReqResult
result_of qr err result = record {
  err = err;
  result = result;
  req_id = qr.req_id;
  query = qr.query_str;
  caller_ch = qr.caller_ch;
}

pub data Step (s : System) (s' : System) : Type 0 where
  -- a caller queues a request; fewer than 2^64 are made
  append :
      (query : List ℕ) (ch : ℕ)
      → s.manager.next_req_id + 1 < 2 ^ 64
      → s' ≡ record s { manager = append_request query ch s.manager; waking = ch ∷ s.waking }
      → Step s s'
  -- and wakes the manager
  wake :
      (xs ys : List ℕ) (ch : ℕ)
      → s.waking ≡ xs ++ ch ∷ ys
      → length s.manager.in_ch < in_ch_capacity
      → s' ≡ record s { manager = send none s.manager; waking = xs ++ ys }
      → Step s s'
  -- a thread ends
  finish :
      (xs ys : List QueryRequest) (qr : QueryRequest) (err : ReqError) (result : List ℕ)
      → s.running ≡ xs ++ qr ∷ ys
      → length s.manager.in_ch < in_ch_capacity
      → s'
        ≡ record s { manager = send (some (result_of qr err result)) s.manager; running = xs ++ ys }
      → Step s s'
  -- `Run` receives a message that nobody waits for, and ends its round
  round :
      (msg : Option ReqResult) (rest : List (Option ReqResult)) (o : Option QueryRequest)
      (m : RequestManager)
      → s.delivering ≡ none
      → s.manager.is_execution_active ≡ true
      → s.manager.in_ch ≡ msg ∷ rest
      → (receive msg (record (s.manager) { in_ch = rest })).0 ≡ none
      → dispatch (receive msg (record (s.manager) { in_ch = rest })).1 ≡ done (o, m)
      → s' ≡ record s { manager = m; running = started o s.running }
      → Step s s'
  -- `Run` receives a result for a caller
  reply :
      (msg : Option ReqResult) (rest : List (Option ReqResult)) (r : ReqResult)
      → s.delivering ≡ none
      → s.manager.is_execution_active ≡ true
      → s.manager.in_ch ≡ msg ∷ rest
      → (receive msg (record (s.manager) { in_ch = rest })).0 ≡ some r
      → s' ≡ record s {
        manager = (receive msg (record (s.manager) { in_ch = rest })).1;
        delivering = some r;
      }
      → Step s s'
  -- the caller, which has woken the manager, takes it, and `Run` ends its round
  deliver :
      (r : ReqResult) (o : Option QueryRequest) (m : RequestManager)
      → s.delivering ≡ some r
      → is_waking r.caller_ch s.waking ≡ false
      → dispatch s.manager ≡ done (o, m)
      → s' ≡ record s {
        manager = m;
        running = started o s.running;
        delivering = none;
        delivered = r ∷ s.delivered;
      }
      → Step s s'

pub data Reach : System → Type 0 where
  here : Reach start
  step : (s t : System) → Reach s → Step s t → Reach t
