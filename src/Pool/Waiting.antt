-- ===== src/Pool/Waiting.antt =====
-- The wait of dial for capacity in internal/upstream/pool.go: waitChannel, signalCapacityChange and
-- the loop in front of the reservation, of one dial among any others.
use session_proxy.Prelude.{
  ℕ, ◌+◌, ◌≡◌, ◌⊎◌, Bool, true, false, ◌||◌, ◌==◌, Option, none, some, if◌then◌else◌,
}

-- `current` is waitCh, `fresh` the next channel that make returns, and `closed` the closed ones.
pub record Waiters : Type 0 where
  pub current : Option ℕ
  pub fresh : ℕ
  pub closed : ℕ → Bool

unfoldable pub wait_channel : Waiters → ℕ × Waiters
wait_channel w = elim w.current [
  | none ↦ (w.fresh, record w { current = some w.fresh; fresh = w.fresh + 1 })
  | some ch ↦ (ch, w)
]

unfoldable pub signal_capacity_change : Waiters → Waiters
signal_capacity_change w = elim w.current [
  | none ↦ w
  | some ch ↦ record w { current = none; closed = λ i. i == ch || w.closed i }
]

-- Where the dial is in its loop: in front of waitChannel, in front of the first or the second
-- selection with the channel, asleep on it, or behind the loop.
pub data Turn : Type 0 where
  begins left : Turn
  looks rechecks sleeps : ℕ → Turn

-- `room` says whether a connection has capacity, and `owed` that it was made by someone who has not
-- called signalCapacityChange since.
pub record Pending : Type 0 where
  pub turn : Turn
  pub waiters : Waiters
  pub room : Bool
  pub owed : Bool

abbrev pub waiting_first : Bool → Pending
waiting_first room = record {
  turn = begins;
  waiters = record { current = none; fresh = 0; closed = λ i. false };
  room = room;
  owed = false;
}

unfoldable pub fetch_channel : Pending → Pending
unfolding wait_channel
fetch_channel s = record s {
  turn = looks (wait_channel s.waiters).0;
  waiters = (wait_channel s.waiters).1;
}

-- The first selection, and the reservation, which another dial may have outrun.
unfoldable pub look_for_room : Bool → ℕ → Pending → Pending
look_for_room outrun ch s = record s {
  turn = if s.room then (if outrun then begins else left) else rechecks ch;
}

-- The second selection, and the select where it found nothing.
unfoldable pub look_again : ℕ → Pending → Pending
look_again ch s = record s { turn = if s.room then begins else sleeps ch }

unfoldable pub send_signal : Pending → Pending
unfolding signal_capacity_change
send_signal s = record s { waiters = signal_capacity_change s.waiters; owed = false }

-- What the dial and the others do: it may fail at an empty pool or the end of its context; they wait, take room, make room, and signal.
pub data Step (s : Pending) : Pending → Type 0 where
  fetched : s.turn ≡ begins → Step s (fetch_channel s)
  looked : (outrun : Bool) (ch : ℕ) → s.turn ≡ looks ch → Step s (look_for_room outrun ch s)
  rechecked : (ch : ℕ) → s.turn ≡ rechecks ch → Step s (look_again ch s)
  failed : Step s (record s { turn = left })
  woken :
      (ch : ℕ)
      → s.turn ≡ sleeps ch
      → s.waiters.closed ch ≡ true
      → Step s (record s { turn = begins })
  other_waits : Step s (record s { waiters = (wait_channel s.waiters).1 })
  room_taken : Step s (record s { room = false })
  room_made : Step s (record s { room = true; owed = true })
  signalled : Step s (send_signal s)

pub data Reachable : Pending → Type 0 where
  started : (room : Bool) → Reachable (waiting_first room)
  stepped : {s t : Pending} → Reachable s → Step s t → Reachable t

-- A channel that is held is closed or the current one.
IsHeld : ℕ → Waiters → Type 0
IsHeld ch w = (w.closed ch ≡ true) ⊎ (w.current ≡ some ch)

IsAwaited : Turn → Pending → Type 0
IsAwaited begins s = Unit
IsAwaited left s = Unit
IsAwaited (looks ch) s = IsHeld ch s.waiters
IsAwaited (rechecks ch) s = IsHeld ch s.waiters
IsAwaited (sleeps ch) s =
    IsHeld ch s.waiters × ((s.waiters.closed ch ≡ true) ⊎ (s.owed ≡ true) ⊎ (s.room ≡ false))
