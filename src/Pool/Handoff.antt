-- ===== src/Pool/Handoff.antt =====
-- dial of internal/upstream/pool.go behind its reservation: the goroutine that opens the channel,
-- and the caller, who may be gone when it is open. Each step is what one of them does at once.
pub mod Settles
use session_proxy.Prelude.{
  ℕ, ◌+◌, ◌-◌, ◌<◌, ◌≡◌, ◌≢◌, ◌⊎◌, inl, inr, refl, sym, ap, subst, Bool, true, false, not, arith,
  if◌then◌else◌, Bool-cases,
}

-- The channel: there is none, it is open, closed, or in the hands of the caller.
pub data Channel : Type 0 where
  no_channel open_channel closed_channel given_channel : Channel

-- Where the goroutine is: in Dial, at its look at `abandoned`, in its select, or cleaning up, with
-- the value of `timedOut`.
pub data Opener : Type 0 where
  opening checking offering finished : Opener
  cleaning : Bool → Opener

-- `broken` is what isTransportError says of the error of Dial, and `evicted` that removeConn was
-- called for it. `inflight` and `pending` are the parts of this dial in inflightDials and pendingAbandonedDials.
pub record Handoff : Type 0 where
  pub opener : Opener
  pub caller_waits : Bool
  pub ctx_done : Bool
  pub abandoned : Bool
  pub cleanup_done : Bool
  pub channel : Channel
  pub broken : Bool
  pub evicted : Bool
  pub inflight : ℕ
  pub pending : ℕ
  pub late_successes : ℕ
  pub late_failures : ℕ
  pub active : ℕ

abbrev pub started : Handoff
started = record {
  opener = opening;
  caller_waits = true;
  ctx_done = false;
  abandoned = false;
  cleanup_done = false;
  channel = no_channel;
  broken = false;
  evicted = false;
  inflight = 1;
  pending = 0;
  late_successes = 0;
  late_failures = 0;
  active = 0;
}

-- Dial returns with a connection or an error.
unfoldable pub finish_dial : Bool → Bool → Handoff → Handoff
finish_dial ok broken s = record s {
  opener = checking;
  channel = if ok then open_channel else no_channel;
  broken = broken;
}

-- The look at `abandoned`.
unfoldable pub check_abandoned : Handoff → Handoff
check_abandoned s = record s { opener = if s.abandoned then cleaning true else offering }

-- The case of ctx.Done in the goroutine, under stateMu.
unfoldable pub withdraw : Handoff → Handoff
withdraw s = record s { opener = cleaning s.abandoned; cleanup_done = true }

-- Closing a late connection, and the counters.
unfoldable pub close_late : Handoff → Handoff
close_late s = elim s.channel [
  | open_channel ↦ record s { channel = closed_channel; late_successes = s.late_successes + 1 }
  | _ ↦ record s { late_failures = s.late_failures + 1 }
]

unfoldable pub clean_up : Bool → Handoff → Handoff
unfolding close_late
clean_up timed_out s = record (close_late s) {
  opener = finished;
  pending = if timed_out then s.pending - 1 else s.pending;
  inflight = s.inflight - 1;
}

-- The case of ctx.Done in the caller.
unfoldable pub give_up : Handoff → Handoff
give_up s =
    if not s.cleanup_done
    then record s { caller_waits = false; abandoned = true; pending = s.pending + 1 }
    else record s { caller_waits = false }

-- The result goes over: releaseInflight, and a connection is counted and returned, or the SSH
-- connection that is broken evicted.
unfoldable pub take_result : Handoff → Handoff
take_result s = elim s.channel [
  | open_channel ↦ record s {
    opener = finished;
    caller_waits = false;
    inflight = s.inflight - 1;
    channel = given_channel;
    active = s.active + 1;
  }
  | _ ↦ record s {
    opener = finished;
    caller_waits = false;
    inflight = s.inflight - 1;
    evicted = s.broken;
  }
]

pub data Step (s : Handoff) : Handoff → Type 0 where
  dialled : (ok broken : Bool) → s.opener ≡ opening → Step s (finish_dial ok broken s)
  ctx_ended : Step s (record s { ctx_done = true })
  looked : s.opener ≡ checking → Step s (check_abandoned s)
  withdrew : s.opener ≡ offering → s.ctx_done ≡ true → Step s (withdraw s)
  cleaned : (timed_out : Bool) → s.opener ≡ cleaning timed_out → Step s (clean_up timed_out s)
  gave_up : s.caller_waits ≡ true → s.ctx_done ≡ true → Step s (give_up s)
  handed : s.opener ≡ offering → s.caller_waits ≡ true → Step s (take_result s)

pub data Reachable : Handoff → Type 0 where
  begun : Reachable started
  stepped : {s t : Handoff} → Reachable s → Step s t → Reachable t
