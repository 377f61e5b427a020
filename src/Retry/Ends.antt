-- ===== src/Retry/Ends.antt =====
-- RunContext of internal/retry/retry.go ends, and how.
use session_proxy.Prelude.{
  ℕ, suc, ◌+◌, ◌<◌, ◌≤◌, ◌≡◌, true, false, List, [], ◌∷◌, Option, none, some, arith, length,
  Option-cases, Bool-cases, inl, inr,
}
use session_proxy.Retry.{Try, ran, Report, exhausted, run_loop, run_context}

-- The result that is due after `attempt` failures: the error of a context that has ended, success
-- where a call succeeds, and the error of the last call that the limit allows.
pub data Due {E : Type 0} (most : ℕ) : ℕ → List (Try E) → Option E → Type 0 where
  cancelled :
      {n : ℕ} {t : Try E} {ts : List (Try E)} {e : E}
      → t.ended_before ≡ some e
      → Due most n (t ∷ ts) (some e)
  succeeded :
      {n : ℕ} {t : Try E} {ts : List (Try E)}
      → t.ended_before ≡ none
      → t.fn_error ≡ none
      → Due most n (t ∷ ts) none
  last_failed :
      {n : ℕ} {t : Try E} {ts : List (Try E)} {e : E}
      → t.ended_before ≡ none
      → t.fn_error ≡ some e
      → most ≤ suc n
      → Due most n (t ∷ ts) (some e)
  cancelled_asleep :
      {n : ℕ} {t : Try E} {ts : List (Try E)} {e c : E}
      → t.ended_before ≡ none
      → t.fn_error ≡ some e
      → suc n < most
      → t.ended_asleep ≡ some c
      → Due most n (t ∷ ts) (some c)
  again :
      {n : ℕ} {t : Try E} {ts : List (Try E)} {e : E} {r : Option E}
      → t.ended_before ≡ none
      → t.fn_error ≡ some e
      → suc n < most
      → t.ended_asleep ≡ none
      → Due most (suc n) ts r
      → Due most n (t ∷ ts) r

-- What a run with a limit comes to.
pub record Ended {E : Type 0} (most n : ℕ) (ts : List (Try E)) (p : Report E) : Type 0 where
  pub answer : Option E
  pub ends : p.result ≡ ran answer
  pub due : Due most n ts answer
  pub few_calls : n + p.calls ≤ most

exhausted_at : (most n : ℕ) → exhausted most (suc n) ≡ true → most ≤ suc n
unfolding exhausted
exhausted_at most n h = ground (arith, h)

not_exhausted_at : (most n : ℕ) → 0 < most → exhausted most (suc n) ≡ false → suc n < most
unfolding exhausted
not_exhausted_at most n l h = ground (arith, h, l)

module _ {E : Type 0} (next_delay : ℕ → ℕ) (most : ℕ) (limited : 0 < most) where
  run_loop-Ended :
      (ts : List (Try E)) (n : ℕ)
      → n < most
      → most ≤ n + length ts
      → Ended most n ts (run_loop next_delay most ts n)
  unfolding run_loop
  run_loop-Ended [] n h l = absurd (omega (arith, h, l))
  run_loop-Ended (t ∷ ts) n h l = elim (Option-cases t.ended_before) [
    | inr (e, b) ↦ record {
      answer = some e;
      ends = ground (arith, b);
      due = cancelled b;
      few_calls = ground (arith, b, h);
    }
    | inl b ↦ elim (Option-cases t.fn_error) [
      | inl f ↦ record {
        answer = none;
        ends = ground (arith, b, f);
        due = succeeded b f;
        few_calls = ground (arith, b, f, h);
      }
      | inr (e, f) ↦ elim (Bool-cases (exhausted most (suc n))) [
        | inl x ↦ record {
          answer = some e;
          ends = ground (arith, b, f, x);
          due = last_failed b f (exhausted_at most n x);
          few_calls = ground (arith, b, f, x, h);
        }
        | inr x ↦ elim (Option-cases t.ended_asleep) [
          | inr (c, s) ↦ record {
            answer = some c;
            ends = ground (arith, b, f, x, s);
            due = cancelled_asleep b f (not_exhausted_at most n limited x) s;
            few_calls = ground (arith, b, f, x, s, h);
          }
          | inl s ↦
              let v =
                run_loop-Ended ts (suc n) (not_exhausted_at most n limited x) (omega (arith, l)) in
              record {
                answer = v.answer;
                ends = ground (arith, b, f, x, s, v.ends);
                due = again b f (not_exhausted_at most n limited x) s v.due;
                few_calls = ground (arith, b, f, x, s, v.few_calls);
              }
        ]
      ]
    ]
  ]

-- With a limit on the attempts, RunContext ends after no more calls than that, and returns what is
-- due: the error of a context that has ended, before a call or in a sleep, success as soon as a
-- call succeeds, or the error of the last call that the limit allows.
pub run_context-Ended :
    {E : Type 0} (next_delay : ℕ → ℕ) (most : ℕ) (ts : List (Try E))
    → 0 < most
    → most ≤ length ts
    → Ended most 0 ts (run_context next_delay most ts)
unfolding run_context
run_context-Ended next_delay most ts p l =
    run_loop-Ended next_delay most p ts 0 p (omega (arith, l))
