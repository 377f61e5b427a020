-- ===== src/Tests/Transport.antt =====
-- The loops of an adapter over a WebSocket, and its waits.
use session_proxy.Prelude.{◌≡◌, ◌+◌, ◌*◌, refl, false, [], ◌∷◌, none, arith, List}
use session_proxy.Adapter.Lifecycle.{connected, fail_attempt, begin_attempt}
use session_proxy.Adapter.Deadlines.{blocked, sleep_with_write_deadline, wait_with_write_deadline}
use session_proxy.Adapter.Deadlines.Bounds.{Slept, Kept, write_deadline_bounds}
use session_proxy.Adapter.Resuming.{
  Attempt, not_dialled, reconnect, resume_budget, second, gave_up, call_timeout,
}
use session_proxy.Adapter.Resuming.Budget.{Ends, reconnect-Ends}

-- The deadline comes between the two looks, and no channel is closed.
write_deadline_bounds_example :
    Slept 10 3 11 0 none (sleep_with_write_deadline 10 3 9 11 0 none)
    × Kept 10 9 11 0 none none (wait_with_write_deadline 10 9 11 0 none none)
write_deadline_bounds_example =
    write_deadline_bounds 10 9 11 0 none none (omega arith) 3 (omega arith)

waits_for_ever : wait_with_write_deadline 10 9 11 0 none none ≡ blocked
unfolding wait_with_write_deadline
waits_for_ever = refl

-- The dial fails in an attempt of a second, with half a second to the next one.
abbrev failing : Attempt
failing = record {
  others = λ l. l;
  during = λ l. l;
  asleep = λ l. l;
  lag = 0;
  resume_spent = 0;
  dial_spent = second;
  outcome = not_dialled;
  delay = second;
  late = 0;
  timer_first = false;
}

abbrev three : List Attempt
three = failing ∷ failing ∷ failing ∷ []

reconnect-Ends_example :
    Ends (5 + resume_budget (2 * second)) (reconnect (2 * second) three 5 (connected 4))
unfolding resume_budget
reconnect-Ends_example =
    reconnect-Ends (2 * second) second 5 2 three (connected 4) (omega arith) (omega arith)
      (omega arith)

-- The third test of the loop comes behind the deadline.
gives_up : (reconnect (2 * second) three 5 (connected 4)).result ≡ gave_up
unfolding reconnect fail_attempt begin_attempt
gives_up = refl

-- The first attempt may take all of the budget.
whole_budget : call_timeout (2 * second) ≡ 2 * second
unfolding call_timeout
whole_budget = refl
