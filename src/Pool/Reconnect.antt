-- ===== src/Pool/Reconnect.antt =====
-- recordDialTimeout and maybeForceReconnect of internal/upstream/pool.go: dials that time out, and
-- the connection that is probed for it. The calls are as one dial makes them, with nothing of other
-- dials between their atomic operations.
use session_proxy.Prelude.{ℕ, ◌+◌, ◌-◌, ◌*◌, Bool, true, false, ◌&&◌, not, ltb, ◌==◌, if◌then◌else◌}
use session_proxy.Pool.{second}

abbrev pub dial_timeout_window : ℕ
dial_timeout_window = 30 * second

abbrev pub dial_timeouts_before_reconnect : ℕ
dial_timeouts_before_reconnect = 3

abbrev pub forced_reconnect_cooldown : ℕ
forced_reconnect_cooldown = 15 * second

-- lastDialTimeoutUnixNano and dialTimeoutCount of a connection, and what maybeForceReconnect keeps
-- in its group, with the draining mark of the connection.
pub record DialTimeouts : Type 0 where
  pub last_dial_timeout : ℕ
  pub dial_timeout_count : ℕ
  pub last_forced_reconnect : ℕ
  pub forced_reconnects_total : ℕ
  pub forced_in_progress : Bool
  pub marked_draining : Bool

-- recordDialTimeout
unfoldable pub record_dial_timeout : ℕ → DialTimeouts → DialTimeouts
record_dial_timeout now s = record s {
  last_dial_timeout = now;
  dial_timeout_count =
      if s.last_dial_timeout == 0
      then 1
      else if ltb dial_timeout_window (now - s.last_dial_timeout)
      then 1
      else s.dial_timeout_count + 1;
}

-- maybeForceReconnect of a connection, up to the start of its probe.
unfoldable pub maybe_force_reconnect : ℕ → DialTimeouts → DialTimeouts
maybe_force_reconnect now s =
    if not (s.last_forced_reconnect == 0)
      && ltb (now - s.last_forced_reconnect) forced_reconnect_cooldown
    then s
    else if s.forced_in_progress
    then s
    else record s {
      last_forced_reconnect = now;
      forced_reconnects_total = s.forced_reconnects_total + 1;
      forced_in_progress = true;
      marked_draining = true;
    }

-- The end of the probe where it succeeded: the connection is restored.
unfoldable pub restore_conn : DialTimeouts → DialTimeouts
restore_conn s = record s {
  last_dial_timeout = 0;
  dial_timeout_count = 0;
  forced_in_progress = false;
  marked_draining = false;
}
