-- ===== src/Adapter/Deadlines.antt =====
-- The write deadline of internal/protocol/adapter.go and what waits under it. Readings of the clock
-- are arguments, and a channel is the time at which it is closed, none for never; the deadline is
-- not set anew during a call, and 0 is the zero time.
pub mod Bounds
use session_proxy.Prelude.{
  ℕ, ◌+◌, ◌*◌, ◌^◌, ◌-◌, Bool, true, false, not, ◌&&◌, ◌||◌, Option, none, some, max, ltb, leb,
  ◌==◌, if◌then◌else◌,
}

-- writeWait
abbrev pub write_wait : ℕ
write_wait = 10 * 10 ^ 9

-- writeDeadlineExceeded
unfoldable pub write_deadline_exceeded : ℕ → ℕ → Bool
write_deadline_exceeded deadline now = not (deadline == 0) && not (ltb now deadline)

-- writeDeadlineWait
unfoldable pub write_deadline_wait : ℕ → ℕ → Option ℕ
write_deadline_wait deadline now =
    if deadline == 0 then none else if deadline - now == 0 then none else some (deadline - now)

-- effectiveWriteDeadline
unfoldable pub effective_write_deadline : ℕ → ℕ → ℕ
effective_write_deadline deadline now =
    if deadline == 0
    then now + write_wait
    else if ltb (now + write_wait) deadline
    then now + write_wait
    else deadline

-- nil, timeoutError or io.ErrClosedPipe, and when; or the call does not return.
pub data Waited : Type 0 where
  awake : ℕ → Waited
  timed_out : ℕ → Waited
  pipe_closed : ℕ → Waited
  blocked : Waited

-- ensureWriteDeadlineWake: whether it returns timeoutError, and the timer, none or the time at
-- which it wakes.
unfoldable pub ensure_write_deadline_wake : ℕ → ℕ → ℕ → ℕ → Option ℕ → Bool × Option ℕ
unfolding write_deadline_exceeded write_deadline_wait
ensure_write_deadline_wake deadline first second third timer =
    if write_deadline_exceeded deadline first then (true, timer) else elim timer [
      | some at ↦ (false, some at)
      | none ↦ elim (write_deadline_wait deadline second) [
        | none ↦ (write_deadline_exceeded deadline third, none)
        | some wait ↦ (false, some (second + wait))
      ]
    ]

-- Whether a channel is closed before a time.
unfoldable pub closed_before : Option ℕ → ℕ → Bool
closed_before none limit = false
closed_before (some at) limit = ltb at limit

-- What sleepWithWriteDeadline sleeps.
unfoldable pub sleep_time : ℕ → ℕ → ℕ → ℕ
unfolding write_deadline_wait
sleep_time deadline now d = elim (write_deadline_wait deadline now) [
  | none ↦ d
  | some wait ↦ if ltb d wait then d else wait
]

-- sleepWithWriteDeadline at two readings of the clock, with a timer that is late, and the time at
-- which `done` is closed.
unfoldable pub sleep_with_write_deadline : ℕ → ℕ → ℕ → ℕ → ℕ → Option ℕ → Waited
unfolding write_deadline_exceeded sleep_time closed_before
sleep_with_write_deadline deadline d first second late done_at =
    let wait = sleep_time deadline second d in
    let fires = second + wait + late in
    if write_deadline_exceeded deadline first
    then timed_out first
    else if wait == 0
    then timed_out second
    else if closed_before done_at fires
    then elim done_at [ some at ↦ pipe_closed (max at second) | none ↦ blocked ]
    else if write_deadline_exceeded deadline fires
    then timed_out fires
    else awake fires

-- The select over a channel and `done`.
unfoldable pub wait_channels : ℕ → Option ℕ → Option ℕ → Waited
unfolding closed_before
wait_channels now none none = blocked
wait_channels now (some at) none = awake (max at now)
wait_channels now none (some done_at) = pipe_closed (max done_at now)
wait_channels now (some at) (some done_at) =
    if ltb done_at at then pipe_closed (max done_at now) else awake (max at now)

-- The same with a timer.
unfoldable pub wait_timed : ℕ → ℕ → Option ℕ → Option ℕ → Waited
unfolding closed_before wait_channels
wait_timed now fires channel done_at =
    if closed_before channel fires || closed_before done_at fires
    then wait_channels now channel done_at
    else timed_out fires

-- waitWithWriteDeadline
unfoldable pub wait_with_write_deadline : ℕ → ℕ → ℕ → ℕ → Option ℕ → Option ℕ → Waited
unfolding write_deadline_exceeded write_deadline_wait wait_timed wait_channels
wait_with_write_deadline deadline first second late channel done_at =
    if write_deadline_exceeded deadline first
    then timed_out first
    else elim (write_deadline_wait deadline second) [
      | some wait ↦ wait_timed second (second + wait + late) channel done_at
      | none ↦ wait_channels second channel done_at
    ]
