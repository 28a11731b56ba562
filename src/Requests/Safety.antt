-- ===== src/Requests/Safety.antt =====
-- What lib/samehada/request_manager.go does with its requests, in any order of steps.
use samehada_db.Prelude.{
  ℕ, ◌+◌, ◌≤◌, ◌≡◌, refl, sym, subst, true, false, ◌||◌, none, some, length, ltb, arith, ◌∙◌, ◌∷◌,
}
use samehada_db.Requests.{ReqResult, max_txn_thread_num}
use samehada_db.Requests.Schedule.{
  System, start, Step, append, wake, finish, round, reply, deliver, Reach, here, step, started,
}
use samehada_db.Requests.Invariant.{
  occurrences, one_if, results_in, wakes_in, is_some, is_empty, IsCounted, IsKept, append-IsKept,
  wake-IsKept, finish-IsKept, dispatch-IsKept, received, receive-IsCounted,
}

start-IsKept : IsKept start
start-IsKept = record {
  counts = record {
    next_lt = omega arith;
    counted = omega arith;
    bounded = omega arith;
    once = λ id. ground arith;
  };
  awake = refl;
}

deliver-IsCounted :
    (s : System) (r : ReqResult)
    → s.delivering ≡ some r
    → IsCounted s
    → IsCounted (record s { delivering = none; delivered = r ∷ s.delivered })
deliver-IsCounted s r e c = record {
  next_lt = c.next_lt;
  counted = c.counted;
  bounded = c.bounded;
  once = λ id. ground (arith, c.once id);
}

reply-IsKept : (s : System) (r : ReqResult) → s.delivering ≡ some r → IsCounted s → IsKept s
reply-IsKept s r e c = record { counts = c; awake = ground arith }

step-IsKept : (s s' : System) → IsKept s → Step s s' → IsKept s'
step-IsKept s s' k (append query ch lt e) = subst IsKept (sym e) (append-IsKept s query ch k lt)
step-IsKept s s' k (wake xs ys ch w room e) = subst IsKept (sym e) (wake-IsKept s xs ys ch k w)
step-IsKept s s' k (finish xs ys qr err result r room e) =
    subst IsKept (sym e) (finish-IsKept s xs ys qr err result k r)
step-IsKept s s' k (round msg rest o m d active h quiet run e) = subst IsKept (sym e) (
    subst (λ x. IsKept (record s { manager = m; running = started o s.running; delivering = x }))
      (quiet ∙ sym d)
      (dispatch-IsKept (received s msg rest) o m (receive-IsCounted s msg rest k d h) run))
step-IsKept s s' k (reply msg rest r d active h says e) = subst IsKept (sym e) (
    subst (λ x. IsKept (record (received s msg rest) { delivering = x })) says
      (reply-IsKept (received s msg rest) r says (receive-IsCounted s msg rest k d h)))
step-IsKept s s' k (deliver r o m d woken run e) = subst IsKept (sym e) (
    dispatch-IsKept (record s { delivering = none; delivered = r ∷ s.delivered }) o m
      (deliver-IsCounted s r d k.counts) run)

Reach-IsKept : (s : System) → Reach s → IsKept s
Reach-IsKept _ here = start-IsKept
Reach-IsKept _ (step s t r e) = step-IsKept s t (Reach-IsKept s r) e

-- However they take turns from an empty manager, the counter of executing requests is the number of
-- threads that run and of results that wait in the channel, and at most 24 threads run.
pub at_most_max_run :
    (s : System)
    → Reach s
    → (s.manager.cur_executing_req_num ≡ length s.running + results_in s.manager.in_ch)
      × (length s.running ≤ max_txn_thread_num)
at_most_max_run s r =
    let k = Reach-IsKept s r in
    (k.counts.counted, omega (arith, k.counts.counted, k.counts.bounded))

-- However callers, executing threads and the thread of Run take turns from an empty manager: a
-- request that was made is in exactly one place, the queue, a thread, a message, the result that
-- Run is sending, or its caller's hands, and a request that was not made is in none; none is lost
-- or run twice at once, also where transactions abort and are queued again.
pub each_request_once :
    (s : System) → Reach s → (id : ℕ) → occurrences id s ≡ one_if (ltb id s.manager.next_req_id)
each_request_once s r = (Reach-IsKept s r).counts.once

-- However they take turns from an empty manager, while a request waits in the queue, a thread runs,
-- a message waits in the channel, a caller is about to wake the manager, or Run is sending a
-- result: the manager is never idle with a request in its queue.
pub no_request_forgotten :
    (s : System)
    → Reach s
    → is_empty s.manager.exec_que ≡ false
    → (ltb 0 (length s.running + results_in s.manager.in_ch)
        || ltb 0 (length s.waking + wakes_in s.manager.in_ch)
        || is_some s.delivering)
      ≡ true
no_request_forgotten s r h = let k = Reach-IsKept s r in ground (arith, k.awake, k.counts.counted)
