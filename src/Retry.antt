-- ===== src/Retry.antt =====
-- RunContext of internal/retry/retry.go. The delay of an attempt, a float with random jitter, is a
-- parameter; what the function returns and whether the context has ended are arguments.
pub mod Ends
use session_proxy.Prelude.{
  ℕ, suc, Bool, true, false, ◌&&◌, List, [], ◌∷◌, Option, none, some, ltb, leb, if◌then◌else◌,
}

-- One round of the loop: whether the context has ended before the call, the error that fn returns,
-- and whether the context ends during the sleep. A context error is of the type E as well.
pub record Try (E : Type 0) : Type 0 where
  pub ended_before : Option E
  pub fn_error : Option E
  pub ended_asleep : Option E

-- nil or an error; `running` where the rounds end first.
pub data Run (E : Type 0) : Type 0 where
  ran : Option E → Run E
  running : Run E

-- What RunContext did: its result, how often it called fn, and how long it slept.
pub record Report (E : Type 0) : Type 0 where
  pub result : Run E
  pub calls : ℕ
  pub slept : List ℕ

-- The test for the last attempt.
unfoldable pub exhausted : ℕ → ℕ → Bool
exhausted max_attempts attempt = ltb 0 max_attempts && leb max_attempts attempt

module _ {E : Type 0} (next_delay : ℕ → ℕ) (max_attempts : ℕ) where
  -- The loop of RunContext.
  unfoldable pub run_loop : List (Try E) → ℕ → Report E
  unfolding exhausted
  run_loop [] attempt = record { result = running; calls = 0; slept = [] }
  run_loop (t ∷ ts) attempt =
      let rest = run_loop ts (suc attempt) in
      elim t.ended_before [
        | some e ↦ record { result = ran (some e); calls = 0; slept = [] }
        | none ↦ elim t.fn_error [
          | none ↦ record { result = ran none; calls = 1; slept = [] }
          | some e ↦
              if exhausted max_attempts (suc attempt)
              then record { result = ran (some e); calls = 1; slept = [] }
              else elim t.ended_asleep [
                | some c ↦ record {
                  result = ran (some c);
                  calls = 1;
                  slept = next_delay (suc attempt) ∷ [];
                }
                | none ↦ record {
                  result = rest.result;
                  calls = suc rest.calls;
                  slept = next_delay (suc attempt) ∷ rest.slept;
                }
              ]
        ]
      ]

  -- RunContext
  unfoldable pub run_context : List (Try E) → Report E
  unfolding run_loop
  run_context ts = run_loop ts 0
