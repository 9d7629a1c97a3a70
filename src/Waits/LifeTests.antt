-- ===== src/Waits/LifeTests.antt =====
-- A run with two waits: the answer to one of them cancels the other, and the timeout of the other comes
-- too late.
use agent_gateway_control.Prelude.{List, [], ◌≡◌, refl, true, false, some}
use agent_gateway_control.Waits.Store.{WaitRow, WaitStatus, insert_wait, resolve_wait}
use agent_gateway_control.Waits.Life.{History, nothing, stores, resolves, waits-consumed_once}

abbrev two_waits : List WaitRow
two_waits = insert_wait "w2" "r1" "ada" "c2" 90000 (insert_wait "w1" "r1" "ada" "c1" 60000 [])

abbrev answered : List WaitRow
answered = (resolve_wait 5000 "w1" "e1" false two_waits).0

abbrev late : List WaitRow
late = (resolve_wait 90000 "w2" "e2" true answered).0

answer_resolves : (resolve_wait 5000 "w1" "e1" false two_waits).1 ≡ true
unfolding resolve_wait insert_wait
answer_resolves = refl

timeout_comes_late : (resolve_wait 90000 "w2" "e2" true answered).1 ≡ false
unfolding resolve_wait insert_wait
timeout_comes_late = refl

stored : History two_waits
unfolding insert_wait
stored =
    stores "w2" "r1" "ada" "c2" 90000 ((refl, tt), (refl, tt))
      (stores "w1" "r1" "ada" "c1" 60000 (tt, tt) nothing)

told : History late
told = resolves 90000 "w2" "e2" true (resolves 5000 "w1" "e1" false stored)

abbrev first_wait : WaitRow
first_wait = record {
  id = "w1";
  agent_id = "ada";
  created_by_run_id = "r1";
  status = WaitStatus.matched;
  correlation_id = "c1";
  timeout_at = 60000;
  matched_event_id = some "e1";
  resolved_at = some 5000;
}

waits-consumed_once_example : first_wait.id ≡ first_wait.id
unfolding resolve_wait insert_wait
waits-consumed_once_example =
    waits-consumed_once told "w1" "w1" first_wait first_wait refl refl refl refl refl
