-- ===== src/Adapter/Resuming.antt =====
-- reconnectLoop and sleepResumeBackoff of internal/protocol/adapter_resume.go: the attempts to
-- resume the WebSocket within a budget of time. What an attempt meets is an argument.
pub mod Budget
use session_proxy.Prelude.{
  ℕ, ◌+◌, ◌*◌, ◌^◌, ◌-◌, Bool, true, false, ◌&&◌, not, List, [], ◌∷◌, ltb, leb, ◌==◌, if◌then◌else◌,
}
use session_proxy.Adapter.Lifecycle.{
  Link, begin_attempt, fail_attempt, finish_resume, exhaust_budget, end_loop,
}

abbrev pub second : ℕ
second = 10 ^ 9

-- defaultResumeBudget
abbrev pub default_resume_budget : ℕ
default_resume_budget = 90 * second

-- The budget of a loop.
unfoldable pub resume_budget : ℕ → ℕ
resume_budget budget = if budget == 0 then default_resume_budget else budget

-- What the calls of an attempt come to: an error of resumeFunc or of the dial, an error of
-- sendOpenDataChannel, or a WebSocket.
pub data Outcome : Type 0 where
  not_resumed not_dialled not_opened : Outcome
  opened : ℕ → Outcome

-- One round: what others do to the link until the look at `done`, during the calls, and until
-- it wakes; the time from the loop's test to the reading behind that look, and that resumeFunc and
-- what follows it take; what
-- NextDelay returns, how late the timer fires, and whether it counts although `done` is closed.
pub record Attempt : Type 0 where
  pub others : Link → Link
  pub during : Link → Link
  pub asleep : Link → Link
  pub lag : ℕ
  pub resume_spent : ℕ
  pub dial_spent : ℕ
  pub outcome : Outcome
  pub delay : ℕ
  pub late : ℕ
  pub timer_first : Bool

-- The loop still tries, ended without a trace, resumed, or closed the adapter.
pub data Resuming : Type 0 where
  trying : Resuming
  adapter_gone : Resuming
  resumed : Resuming
  gave_up : Resuming

-- What a run of the loop did: how it ended and when, the link, the start and the timeout of each call of
-- resumeFunc, and for each dial the start of its attempt, its own and its timeout.
pub record Run : Type 0 where
  pub result : Resuming
  pub ended_at : ℕ
  pub link : Link
  pub calls : List (ℕ × ℕ)
  pub dials : List (ℕ × ℕ × ℕ)

-- The timeout of the calls of an attempt.
unfoldable pub call_timeout : ℕ → ℕ
call_timeout remaining = if ltb (30 * second) remaining then 30 * second else remaining

-- What sleepResumeBackoff sleeps.
unfoldable pub backoff : ℕ → ℕ → ℕ
backoff delay remaining = if ltb remaining delay then remaining else delay

-- sleepResumeBackoff: whether it slept to the end.
unfoldable pub sleep_resume_backoff : ℕ → Bool → Link → Bool
sleep_resume_backoff sleep timer_first woken =
    not (sleep == 0) && not (woken.done && not timer_first)

-- The calls of an attempt: both have the timeout that was taken at its start.
unfoldable pub called : Attempt → ℕ → ℕ → Run → Run
called a start timeout r = elim a.outcome [
  | not_resumed ↦ record r { calls = (start, timeout) ∷ r.calls }
  | _ ↦ record r {
    calls = (start, timeout) ∷ r.calls;
    dials = (start, start + a.resume_spent, timeout) ∷ r.dials;
  }
]

-- The loop, from a time on.
unfoldable pub reconnect_loop : ℕ → List Attempt → ℕ → Link → Run
unfolding call_timeout backoff sleep_resume_backoff called
reconnect_loop deadline [] now l = record {
  result = trying;
  ended_at = now;
  link = l;
  calls = [];
  dials = [];
}
reconnect_loop deadline (a ∷ more) now l =
    let seen = a.others l in
    let start = now + a.lag in
    let behind = start + a.resume_spent + a.dial_spent in
    let tried = a.during (begin_attempt seen) in
    let sleep = backoff a.delay (deadline - behind) in
    let woken = a.asleep (fail_attempt tried) in
    let rest = reconnect_loop deadline more (behind + sleep + a.late) woken in
    if leb deadline now
    then record {
      result = gave_up;
      ended_at = now;
      link = exhaust_budget l;
      calls = [];
      dials = [];
    }
    else if seen.done
    then record {
      result = adapter_gone;
      ended_at = now;
      link = end_loop seen;
      calls = [];
      dials = [];
    }
    else if leb deadline start
    then record {
      result = gave_up;
      ended_at = start;
      link = exhaust_budget seen;
      calls = [];
      dials = [];
    }
    else called a start (call_timeout (deadline - start)) (elim a.outcome [
      | opened ws ↦ record {
        result = resumed;
        ended_at = behind;
        link = finish_resume ws tried;
        calls = [];
        dials = [];
      }
      | _ ↦ if sleep_resume_backoff sleep a.timer_first woken then rest else record {
        result = gave_up;
        ended_at = behind;
        link = exhaust_budget woken;
        calls = [];
        dials = [];
      }
    ])

-- reconnectLoop
unfoldable pub reconnect : ℕ → List Attempt → ℕ → Link → Run
unfolding resume_budget reconnect_loop
reconnect budget attempts now l = reconnect_loop (now + resume_budget budget) attempts now l
