-- ===== src/Requests.antt =====
-- lib/samehada/request_manager.go: the queue of SQL requests and the thread that runs them.
pub mod Schedule
pub mod Invariant
pub mod Safety
mod Tests
use samehada_db.Prelude.{
  ℕ, ◌+◌, ◌-◌, ◌%◌, ◌^◌, Bool, true, false, Option, none, some, ◌&&◌, List, [], ◌∷◌, ◌++◌, ltb,
  if◌then◌else◌, Outcome, done, panic, ◌>>=◌,
}

-- A reply channel is known by a number.
pub record QueryRequest : Type 0 where
  pub req_id : ℕ
  pub query_str : List ℕ
  pub caller_ch : ℕ

-- `err` of a result: nil, `QueryAbortedErr`, or another error
pub data ReqError : Type 0 where
  no_error query_aborted_err other_err : ReqError

pub record ReqResult : Type 0 where
  pub err : ReqError
  pub result : List ℕ
  pub req_id : ℕ
  pub query : List ℕ
  pub caller_ch : ℕ

pub record RequestManager : Type 0 where
  pub next_req_id : ℕ
  pub exec_que : List QueryRequest
  pub cur_executing_req_num : ℕ
  pub in_ch : List (Option ReqResult)
  pub is_execution_active : Bool

-- `common.MaxTxnThreadNum` and the capacity of `inCh`
abbrev pub max_txn_thread_num : ℕ
max_txn_thread_num = 24

abbrev pub in_ch_capacity : ℕ
in_ch_capacity = 100

abbrev pub new_request_manager : RequestManager
new_request_manager = record {
  next_req_id = 0;
  exec_que = [];
  cur_executing_req_num = 0;
  in_ch = [];
  is_execution_active = true;
}

-- `AppendRequest` up to the unlock, with the reply channel that it makes
abbrev pub append_request : List ℕ → ℕ → RequestManager → RequestManager
append_request query_str ret_ch m = record m {
  next_req_id = (m.next_req_id + 1) % 2 ^ 64;
  exec_que =
      m.exec_que
      ++ record { req_id = m.next_req_id; query_str = query_str; caller_ch = ret_ch } ∷ [];
}

abbrev pub send : Option ReqResult → RequestManager → RequestManager
send msg m = record m { in_ch = m.in_ch ++ msg ∷ [] }

unfoldable pub retrieve_request : RequestManager → Outcome (QueryRequest × RequestManager)
retrieve_request m = elim m.exec_que [
  | qr ∷ rest ↦ done (qr, record m { exec_que = rest })
  | [] ↦ panic
]

-- the request whose thread `executeQuedTxns` starts
unfoldable pub execute_qued_txns : RequestManager → Outcome (QueryRequest × RequestManager)
unfolding retrieve_request
execute_qued_txns m = do
  (qr, m1) ← retrieve_request m
  done (qr, record m1 { cur_executing_req_num = (m1.cur_executing_req_num + 1) % 2 ^ 64 })

abbrev pub handle_aborted_by_cc_txn : ReqResult → RequestManager → RequestManager
handle_aborted_by_cc_txn result m = record m {
  exec_que =
      record { req_id = result.req_id; query_str = result.query; caller_ch = result.caller_ch }
      ∷ m.exec_que;
}

-- `Run` from the receive to the stop check, with the result that it sends to the caller, if any
unfoldable pub receive : Option ReqResult → RequestManager → Option ReqResult × RequestManager
receive none m = (none, m)
receive (some recv) m =
    let m1 = record m { cur_executing_req_num = (m.cur_executing_req_num + 2 ^ 64 - 1) % 2 ^ 64 } in
    elim recv.err [
      | query_aborted_err ↦ (none, handle_aborted_by_cc_txn recv m1)
      | no_error ↦ (some recv, m1)
      | other_err ↦ (some recv, m1)
    ]

abbrev has_request : List QueryRequest → Bool
has_request [] = false
has_request (qr ∷ l) = true

-- the rest of the round of `Run`, with the request that it starts, if any
unfoldable pub dispatch : RequestManager → Outcome (Option QueryRequest × RequestManager)
unfolding execute_qued_txns
dispatch m =
    if has_request m.exec_que && ltb m.cur_executing_req_num max_txn_thread_num
    then (do (qr, m1) ← execute_qued_txns m; done (some qr, m1))
    else done (none, m)
