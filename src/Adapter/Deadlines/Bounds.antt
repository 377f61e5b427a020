-- ===== src/Adapter/Deadlines/Bounds.antt =====
-- How long the waits under the write deadline of internal/protocol/adapter.go take.
use session_proxy.Prelude.{
  ℕ, ◌+◌, ◌<◌, ◌≤◌, ◌≡◌, ◌⊎◌, Option, none, some, max, arith, dec_lt, sym, subst,
}
use session_proxy.Adapter.Deadlines.{
  Waited, awake, timed_out, pipe_closed, blocked, write_deadline_exceeded, write_deadline_wait,
  closed_before, sleep_time, sleep_with_write_deadline, wait_channels, wait_timed,
  wait_with_write_deadline,
}

-- What a sleep of a time may come to: it is over in time, with the deadline still ahead or none, the
-- deadline is passed or comes with the next tick, or `done` was closed before.
abbrev pub Slept : ℕ → ℕ → ℕ → ℕ → Option ℕ → Waited → Type 0
Slept deadline d second late done_at (awake t) =
    (t ≡ second + d + late) × ((deadline ≡ 0) ⊎ (t < deadline))
Slept deadline d second late done_at (timed_out t) =
    (t ≤ second + d + late) × ((d ≡ 0) ⊎ (deadline ≤ t) × (0 < deadline))
Slept deadline d second late done_at (pipe_closed t) =
    (t ≤ second + d + late) × ((c : ℕ) × (done_at ≡ some c) × (t ≡ max c second))
Slept deadline d second late done_at blocked = ⊥

sleep_with_write_deadline-Slept :
    (deadline d first second late : ℕ) (done_at : Option ℕ)
    → first ≤ second
    → Slept deadline d second late done_at
        (sleep_with_write_deadline deadline d first second late done_at)
unfolding sleep_with_write_deadline sleep_time write_deadline_wait write_deadline_exceeded
    closed_before
sleep_with_write_deadline-Slept deadline d first second late none h = ground (arith, h)
sleep_with_write_deadline-Slept deadline d first second late (some c) h = ground (arith, h)

-- What a wait for a channel may come to by a time.
abbrev pub DueBy : ℕ → ℕ → ℕ → Option ℕ → Option ℕ → Waited → Type 0
DueBy limit deadline second channel done_at (awake t) =
    (t ≤ limit) × ((c : ℕ) × (channel ≡ some c) × (t ≡ max c second))
DueBy limit deadline second channel done_at (timed_out t) = (t ≤ limit) × (deadline ≤ t)
DueBy limit deadline second channel done_at (pipe_closed t) =
    (t ≤ limit) × ((c : ℕ) × (done_at ≡ some c) × (t ≡ max c second))
DueBy limit deadline second channel done_at blocked = ⊥

wait_timed-DueBy :
    (deadline second fires : ℕ) (channel done_at : Option ℕ)
    → second ≤ fires
    → deadline ≤ fires
    → DueBy fires deadline second channel done_at (wait_timed second fires channel done_at)
unfolding wait_timed wait_channels closed_before
wait_timed-DueBy deadline second fires none none h k = ground (arith, h, k)
wait_timed-DueBy deadline second fires (some c) none h k = ground (arith, h, k)
wait_timed-DueBy deadline second fires none (some d) h k = ground (arith, h, k)
wait_timed-DueBy deadline second fires (some c) (some d) h k = ground (arith, h, k)

-- What the two looks of waitWithWriteDeadline at the clock make of a wait.
pub data Kept (deadline first second late : ℕ) (channel done_at : Option ℕ) : Waited → Type 0 where
  passed : deadline ≤ first → Kept deadline first second late channel done_at (timed_out first)
  in_time :
      {r : Waited}
      → second < deadline
      → DueBy (deadline + late) deadline second channel done_at r
      → Kept deadline first second late channel done_at r
  unlimited :
      first < deadline
      → deadline ≤ second
      → Kept deadline first second late channel done_at (wait_channels second channel done_at)

module _ (deadline first second late : ℕ) (channel done_at : Option ℕ) (set : 0 < deadline) where
  wait_passed :
      deadline ≤ first
      → wait_with_write_deadline deadline first second late channel done_at ≡ timed_out first
  unfolding wait_with_write_deadline write_deadline_exceeded
  wait_passed h = ground (arith, h, set)

  wait_in_time :
      first < deadline
      → second < deadline
      → wait_with_write_deadline deadline first second late channel done_at
        ≡ wait_timed second (deadline + late) channel done_at
  unfolding wait_with_write_deadline write_deadline_exceeded write_deadline_wait
  wait_in_time h k = ground (arith, h, k, set)

  wait_unlimited :
      first < deadline
      → deadline ≤ second
      → wait_with_write_deadline deadline first second late channel done_at
        ≡ wait_channels second channel done_at
  unfolding wait_with_write_deadline write_deadline_exceeded write_deadline_wait
  wait_unlimited h k = ground (arith, h, k, set)

  wait_with_write_deadline-Kept :
      first ≤ second
      → Kept deadline first second late channel done_at
          (wait_with_write_deadline deadline first second late channel done_at)
  wait_with_write_deadline-Kept h = elim (dec_lt first deadline) [
    | no p ↦
        subst (Kept deadline first second late channel done_at) (sym (wait_passed (omega arith)))
          (passed (omega arith))
    | yes p ↦ elim (dec_lt second deadline) [
      | yes q ↦ subst (Kept deadline first second late channel done_at) (sym (wait_in_time p q)) (
          in_time q (
            wait_timed-DueBy deadline second (deadline + late) channel done_at (omega arith)
              (omega arith)))
      | no q ↦
          subst (Kept deadline first second late channel done_at)
            (sym (wait_unlimited p (omega arith))) (unlimited p (omega arith))
    ]
  ]

  -- With a write deadline set, sleepWithWriteDeadline returns, no later than its time and the delay of
  -- its timer: without an error it has slept all of it and the deadline is still ahead; with a timeout
  -- the deadline is passed, or there was nothing to sleep; else `done` was closed. A call of
  -- waitWithWriteDeadline looks at the clock twice. Where the deadline is passed at the first look, it
  -- returns at once; where it is still ahead at the second, it returns by the deadline and the delay of
  -- its timer, whatever becomes of the channels. Where the deadline comes between the two looks, it
  -- waits with no timer, for the channels alone.
  pub write_deadline_bounds :
      (d : ℕ)
      → first ≤ second
      → Slept deadline d second late done_at
          (sleep_with_write_deadline deadline d first second late done_at)
        × Kept deadline first second late channel done_at
            (wait_with_write_deadline deadline first second late channel done_at)
  write_deadline_bounds d h = (
    sleep_with_write_deadline-Slept deadline d first second late done_at h,
    wait_with_write_deadline-Kept h,
  )
