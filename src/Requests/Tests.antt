-- ===== src/Requests/Tests.antt =====
-- A caller of lib/samehada/request_manager.go whose request starts.
use samehada_db.Prelude.{◌+◌, ◌≤◌, ◌≡◌, refl, true, ◌||◌, none, some, [], ◌∷◌, length, ltb, arith}
use samehada_db.Requests.{
  QueryRequest, max_txn_thread_num, append_request, send, receive, dispatch, execute_qued_txns,
  retrieve_request,
}
use samehada_db.Requests.Schedule.{System, start, append, wake, round, Reach, here, step}
use samehada_db.Requests.Invariant.{occurrences, one_if, results_in, wakes_in, is_some}
use samehada_db.Requests.Safety.{at_most_max_run, each_request_once, no_request_forgotten}

abbrev queued : System
queued = record start { manager = append_request (7 ∷ []) 3 start.manager; waking = 3 ∷ [] }

queued-Reach : Reach queued
queued-Reach = step start queued here (append (7 ∷ []) 3 (omega arith) refl)

abbrev woken : System
woken = record queued { manager = send none queued.manager; waking = [] }

woken-Reach : Reach woken
woken-Reach = step queued woken queued-Reach (wake [] [] 3 refl (omega arith) refl)

abbrev request : QueryRequest
request = record { req_id = 0; query_str = 7 ∷ []; caller_ch = 3 }

-- the thread of the request runs
abbrev busy : System
busy = record woken {
  manager = record (woken.manager) { exec_que = []; cur_executing_req_num = 1; in_ch = [] };
  running = request ∷ [];
}

busy-Reach : Reach busy
unfolding receive dispatch execute_qued_txns retrieve_request
busy-Reach =
    step woken busy woken-Reach
      (round none [] (some request) busy.manager refl refl refl refl refl refl)

at_most_max_run_example :
    (busy.manager.cur_executing_req_num ≡ length busy.running + results_in busy.manager.in_ch)
    × (length busy.running ≤ max_txn_thread_num)
at_most_max_run_example = at_most_max_run busy busy-Reach

each_request_once_example : occurrences 0 busy ≡ one_if (ltb 0 busy.manager.next_req_id)
each_request_once_example = each_request_once busy busy-Reach 0

no_request_forgotten_example :
    (ltb 0 (length woken.running + results_in woken.manager.in_ch)
      || ltb 0 (length woken.waking + wakes_in woken.manager.in_ch)
      || is_some woken.delivering)
    ≡ true
no_request_forgotten_example = no_request_forgotten woken woken-Reach refl
