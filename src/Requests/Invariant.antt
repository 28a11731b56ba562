-- ===== src/Requests/Invariant.antt =====
-- What lib/samehada/request_manager.go keeps of its requests.
use samehada_db.Prelude.{
  ℕ, ◌+◌, ◌%◌, ◌^◌, ◌<◌, ◌≤◌, ◌≡◌, refl, sym, subst, ◌∙◌, done-injective, Bool-cases, inl, inr,
  Bool, true, false, not, Option, none, some, List, [], ◌∷◌, ◌++◌, length, length-append, done,
  ◌==◌, ◌||◌, ltb, arith,
}
use samehada_db.Requests.{
  QueryRequest, ReqError, ReqResult, RequestManager, max_txn_thread_num, append_request, send,
  receive, dispatch, execute_qued_txns, retrieve_request,
}
use samehada_db.Requests.Schedule.{System, started, result_of}

abbrev pub one_if : Bool → ℕ
one_if true = 1
one_if false = 0

-- how often a request is in a list
abbrev pub in_queue : ℕ → List QueryRequest → ℕ
in_queue id [] = 0
in_queue id (qr ∷ l) = one_if (qr.req_id == id) + in_queue id l

abbrev pub in_results : ℕ → List ReqResult → ℕ
in_results id [] = 0
in_results id (r ∷ l) = one_if (r.req_id == id) + in_results id l

abbrev pub in_message : ℕ → Option ReqResult → ℕ
in_message id none = 0
in_message id (some r) = one_if (r.req_id == id)

abbrev pub in_messages : ℕ → List (Option ReqResult) → ℕ
in_messages id [] = 0
in_messages id (msg ∷ l) = in_message id msg + in_messages id l

abbrev pub is_some : Option ReqResult → Bool
is_some none = false
is_some (some r) = true

-- the results and the wake-up calls in the channel
abbrev pub results_in : List (Option ReqResult) → ℕ
results_in [] = 0
results_in (msg ∷ l) = one_if (is_some msg) + results_in l

abbrev pub wakes_in : List (Option ReqResult) → ℕ
wakes_in [] = 0
wakes_in (msg ∷ l) = one_if (not (is_some msg)) + wakes_in l

in_queue-append :
    (id : ℕ) (xs ys : List QueryRequest) → in_queue id (xs ++ ys) ≡ in_queue id xs + in_queue id ys
in_queue-append id [] ys = omega arith
in_queue-append id (qr ∷ xs) ys = omega (arith, in_queue-append id xs ys)

in_messages-append :
    (id : ℕ) (xs ys : List (Option ReqResult))
    → in_messages id (xs ++ ys) ≡ in_messages id xs + in_messages id ys
in_messages-append id [] ys = omega arith
in_messages-append id (m ∷ xs) ys = omega (arith, in_messages-append id xs ys)

results_in-append :
    (xs ys : List (Option ReqResult)) → results_in (xs ++ ys) ≡ results_in xs + results_in ys
results_in-append [] ys = omega arith
results_in-append (m ∷ xs) ys = omega (arith, results_in-append xs ys)

wakes_in-append :
    (xs ys : List (Option ReqResult)) → wakes_in (xs ++ ys) ≡ wakes_in xs + wakes_in ys
wakes_in-append [] ys = omega arith
wakes_in-append (m ∷ xs) ys = omega (arith, wakes_in-append xs ys)

-- how often a request is anywhere
abbrev pub occurrences : ℕ → System → ℕ
occurrences id s =
    in_queue id s.manager.exec_que
    + in_queue id s.running
    + in_messages id s.manager.in_ch
    + in_message id s.delivering
    + in_results id s.delivered

abbrev pub is_empty : List QueryRequest → Bool
is_empty [] = true
is_empty (qr ∷ l) = false

-- The counter is right and bounded, and every request that was made is in one place.
pub record IsCounted (s : System) : Type 0 where
  pub next_lt : s.manager.next_req_id < 2 ^ 64
  pub counted : s.manager.cur_executing_req_num ≡ length s.running + results_in s.manager.in_ch
  pub bounded : s.manager.cur_executing_req_num ≤ max_txn_thread_num
  pub once : (id : ℕ) → occurrences id s ≡ one_if (ltb id s.manager.next_req_id)

-- And while a request waits, something will start it.
pub record IsKept (s : System) : Type 0 where
  pub counts : IsCounted s
  pub awake :
      (is_empty s.manager.exec_que
        || ltb 0 s.manager.cur_executing_req_num
        || ltb 0 (length s.waking + wakes_in s.manager.in_ch)
        || is_some s.delivering)
      ≡ true

pub append-IsKept :
    (s : System) (query : List ℕ) (ch : ℕ)
    → IsKept s
    → s.manager.next_req_id + 1 < 2 ^ 64
    → IsKept (record s { manager = append_request query ch s.manager; waking = ch ∷ s.waking })
append-IsKept s query ch k lt =
    let qr : QueryRequest = record {
      req_id = s.manager.next_req_id;
      query_str = query;
      caller_ch = ch;
    } in
    record {
      counts = record {
        next_lt = omega arith;
        counted = k.counts.counted;
        bounded = k.counts.bounded;
        once =
            λ id. ground (arith, k.counts.once id, in_queue-append id s.manager.exec_que (qr ∷ []));
      };
      awake = ground arith;
    }

pub wake-IsKept :
    (s : System) (xs ys : List ℕ) (ch : ℕ)
    → IsKept s
    → s.waking ≡ xs ++ ch ∷ ys
    → IsKept (record s { manager = send none s.manager; waking = xs ++ ys })
wake-IsKept s xs ys ch k e = record {
  counts = record {
    next_lt = k.counts.next_lt;
    counted = ground (arith, k.counts.counted, results_in-append s.manager.in_ch (none ∷ []));
    bounded = k.counts.bounded;
    once =
        λ id. ground (arith, k.counts.once id, in_messages-append id s.manager.in_ch (none ∷ []));
  };
  awake = ground (arith, wakes_in-append s.manager.in_ch (none ∷ []));
}

pub finish-IsKept :
    (s : System) (xs ys : List QueryRequest) (qr : QueryRequest) (err : ReqError) (result : List ℕ)
    → IsKept s
    → s.running ≡ xs ++ qr ∷ ys
    → IsKept
        (record s { manager = send (some (result_of qr err result)) s.manager; running = xs ++ ys })
finish-IsKept s xs ys qr err result k e = record {
  counts = record {
    next_lt = k.counts.next_lt;
    counted = ground (
      arith,
      k.counts.counted,
      results_in-append s.manager.in_ch (some (result_of qr err result) ∷ []),
      length-append xs ys,
      length-append xs (qr ∷ ys),
    );
    bounded = k.counts.bounded;
    once = λ id. ground (
      arith,
      k.counts.once id,
      in_messages-append id s.manager.in_ch (some (result_of qr err result) ∷ []),
      in_queue-append id xs ys,
      in_queue-append id xs (qr ∷ ys),
    );
  };
  awake =
      ground
        (arith, k.awake, wakes_in-append s.manager.in_ch (some (result_of qr err result) ∷ []));
}

dispatch_starts :
    (m : RequestManager) (qr : QueryRequest) (rest : List QueryRequest)
    → m.exec_que ≡ qr ∷ rest
    → ltb m.cur_executing_req_num max_txn_thread_num ≡ true
    → dispatch m
      ≡ done (
        some qr,
        record m {
          exec_que = rest;
          cur_executing_req_num = (m.cur_executing_req_num + 1) % 2 ^ 64;
        },
      )
unfolding dispatch execute_qued_txns retrieve_request
dispatch_starts m qr rest e h = ground arith

dispatch_waits :
    (m : RequestManager)
    → (is_empty m.exec_que || not (ltb m.cur_executing_req_num max_txn_thread_num)) ≡ true
    → dispatch m ≡ done (none, m)
unfolding dispatch
dispatch_waits m h = ground arith

starts-IsKept :
    (s : System) (qr : QueryRequest) (rest : List QueryRequest)
    → IsCounted s
    → s.manager.exec_que ≡ qr ∷ rest
    → ltb s.manager.cur_executing_req_num max_txn_thread_num ≡ true
    → IsKept (record s {
      manager = record (s.manager) {
        exec_que = rest;
        cur_executing_req_num = (s.manager.cur_executing_req_num + 1) % 2 ^ 64;
      };
      running = qr ∷ s.running;
    })
starts-IsKept s qr rest c e h = record {
  counts = record {
    next_lt = c.next_lt;
    counted = ground (arith, c.counted);
    bounded = ground arith;
    once = λ id. ground (arith, c.once id);
  };
  awake = ground arith;
}

waits-IsKept :
    (s : System)
    → IsCounted s
    → (is_empty s.manager.exec_que || not (ltb s.manager.cur_executing_req_num max_txn_thread_num))
      ≡ true
    → IsKept s
waits-IsKept s c h = record { counts = c; awake = ground arith }

dispatch_cases :
    (s : System) (o : Option QueryRequest) (m : RequestManager) (que : List QueryRequest)
    → s.manager.exec_que ≡ que
    → IsCounted s
    → dispatch s.manager ≡ done (o, m)
    → IsKept (record s { manager = m; running = started o s.running })
dispatch_cases s o m [] e c h =
    subst (λ x. IsKept (record s { manager = x.1; running = started x.0 s.running }))
      (done-injective (sym (dispatch_waits s.manager (ground arith)) ∙ h))
      (waits-IsKept s c (ground arith))
dispatch_cases s o m (qr ∷ rest) e c h =
    elim (Bool-cases (ltb s.manager.cur_executing_req_num max_txn_thread_num)) [
      | inl few ↦
          subst (λ x. IsKept (record s { manager = x.1; running = started x.0 s.running }))
            (done-injective (sym (dispatch_starts s.manager qr rest e few) ∙ h))
            (starts-IsKept s qr rest c e few)
      | inr many ↦
          subst (λ x. IsKept (record s { manager = x.1; running = started x.0 s.running }))
            (done-injective (sym (dispatch_waits s.manager (ground arith)) ∙ h))
            (waits-IsKept s c (ground arith))
    ]

pub dispatch-IsKept :
    (s : System) (o : Option QueryRequest) (m : RequestManager)
    → IsCounted s
    → dispatch s.manager ≡ done (o, m)
    → IsKept (record s { manager = m; running = started o s.running })
dispatch-IsKept s o m = dispatch_cases s o m s.manager.exec_que refl

-- the system when `Run` has read a message
abbrev pub received : System → Option ReqResult → List (Option ReqResult) → System
received s msg rest = record s {
  manager = (receive msg (record (s.manager) { in_ch = rest })).1;
  delivering = (receive msg (record (s.manager) { in_ch = rest })).0;
}

pub receive-IsCounted :
    (s : System) (msg : Option ReqResult) (rest : List (Option ReqResult))
    → IsKept s
    → s.delivering ≡ none
    → s.manager.in_ch ≡ msg ∷ rest
    → IsCounted (received s msg rest)
unfolding receive
receive-IsCounted s msg rest k d e = record {
  next_lt = ground (arith, k.counts.next_lt);
  counted = ground (arith, k.counts.counted, k.counts.bounded);
  bounded = ground (arith, k.counts.counted, k.counts.bounded);
  once = λ id. ground (arith, k.counts.once id);
}
