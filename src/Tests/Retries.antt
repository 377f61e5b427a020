-- ===== src/Tests/Retries.antt =====
-- A dial that is handed over, retries, and the failover.
use session_proxy.Prelude.{ℕ, zero, suc, List, ◌≡◌, refl, true, false, [], ◌∷◌, none, some, arith}
use session_proxy.Pool.Connect.{Single, Instances, established, not_established, connect}
use session_proxy.Pool.Connect.Failover.{Settles, connect-Settles}
use session_proxy.Retry.{Try, run_context}
use session_proxy.Retry.Ends.{Ended, run_context-Ended}
use session_proxy.Pool.Handoff.{
  Handoff, Reachable, started, begun, stepped, ctx_ended, gave_up, dialled, give_up, finish_dial,
}
use session_proxy.Pool.Handoff.Settles.{Fate, Reachable-settles}

abbrev failing : Try ℕ
failing = record { ended_before = none; fn_error = some 3; ended_asleep = none }

run_context-Ended_example :
    Ended 2 0 (failing ∷ failing ∷ []) (run_context suc 2 (failing ∷ failing ∷ []))
run_context-Ended_example =
    run_context-Ended suc 2 (failing ∷ failing ∷ []) (omega arith) (omega arith)

-- The caller is gone when Dial returns a connection.
abbrev left : Handoff
left = finish_dial true false (give_up (record started { ctx_done = true }))

left-Reachable : Reachable left
unfolding give_up
left-Reachable =
    stepped (stepped (stepped begun ctx_ended) (gave_up refl refl)) (dialled true false refl)

Reachable-settles_example : Fate left
Reachable-settles_example = Reachable-settles left left-Reachable

-- Nothing answers but the instance 0.
abbrev answers : ℕ → List Single
answers zero =
    established (record { id = 7; active_channels = 0; inflight_dials = 0; draining = false })
    ∷ not_established
    ∷ []
answers (suc i) = not_established ∷ []

abbrev three : Instances
three = record { number = 3; current = 1; conns = [] }

connect-Settles_example :
    Settles answers three (connect answers three).1 3 (connect answers three).0
    × ((connect answers three).0 ≡ false → (connect answers three).1.current ≡ 1)
connect-Settles_example = connect-Settles answers three (omega arith)

moves_on : (connect answers three).1.current ≡ 0
unfolding connect
moves_on = refl
