-- ===== src/Adapter/Closing.antt =====
-- Close, startReconnect and reconnectLoop of internal/protocol/adapter.go and adapter_resume.go as they
-- interleave: each section of reconnectMu, outgoingMu or connMu, and each call that opens or closes a
-- WebSocket, is a function of its own.
pub mod Settled
use session_proxy.Prelude.{ℕ, ◌+◌, ◌-◌, ◌<◌, ◌≡◌, Bool, true, false, if◌then◌else◌}

-- Where Close stands: not called, or in front of its section for the gate, the window, the pipe, the
-- connection, or behind them.
pub data Closer : Type 0 where
  uncalled at_gate at_window at_pipe at_conn over : Closer

unfoldable pub is_finished : Closer → Bool
is_finished uncalled = false
is_finished at_gate = false
is_finished at_window = false
is_finished at_pipe = false
is_finished at_conn = false
is_finished over = true

-- The fields of the adapter, whether the WebSocket that it uses is open (`conn_open`), how many are open,
-- and its threads: those of startReconnect behind their look at done (`starting`), the loops, how many
-- of them have a new WebSocket (`dialled`), and the loops at their deferred call. `late` says that a
-- WebSocket was swapped in behind Close.
pub record Life : Type 0 where
  pub done : Bool
  pub closer : Closer
  pub reconnecting : Bool
  pub gate : Bool
  pub outgoing_closed : Bool
  pub stream_open : Bool
  pub conn_open : Bool
  pub open_sockets : ℕ
  pub starting : ℕ
  pub loops : ℕ
  pub dialled : ℕ
  pub ending : ℕ
  pub late : Bool

abbrev pub fresh_life : Life
fresh_life = record {
  done = false;
  closer = uncalled;
  reconnecting = false;
  gate = false;
  outgoing_closed = false;
  stream_open = true;
  conn_open = true;
  open_sockets = 1;
  starting = 0;
  loops = 0;
  dialled = 0;
  ending = 0;
  late = false;
}

unfoldable pub one_if : Bool → ℕ
one_if true = 1
one_if false = 0

-- The sections of Close.
unfoldable pub close_done : Life → Life
close_done a = record a { done = true; closer = at_gate }

unfoldable pub close_gate : Life → Life
close_gate a = record a { gate = false; reconnecting = false; closer = at_window }

unfoldable pub close_window : Life → Life
close_window a = record a { outgoing_closed = true; closer = at_pipe }

unfoldable pub close_pipe : Life → Life
close_pipe a = record a { stream_open = false; closer = at_conn }

unfoldable pub close_used : Life → Life
unfolding one_if
close_used a = record a {
  open_sockets = a.open_sockets - one_if a.conn_open;
  conn_open = false;
  closer = over;
}

-- startReconnect behind its look at done, and its section.
unfoldable pub pass_done : Life → Life
pass_done a = record a { starting = a.starting + 1 }

unfoldable pub start_loop : Life → Life
start_loop a = if a.reconnecting then record a { starting = a.starting - 1 } else record a {
  starting = a.starting - 1;
  reconnecting = true;
  gate = true;
  loops = a.loops + 1;
}

-- A loop opens a WebSocket, closes it again, swaps it in, or has no more attempts.
unfoldable pub open_dialled : Life → Life
open_dialled a = record a { dialled = a.dialled + 1; open_sockets = a.open_sockets + 1 }

unfoldable pub close_dialled : Life → Life
close_dialled a = record a { dialled = a.dialled - 1; open_sockets = a.open_sockets - 1 }

unfoldable pub swap_in : Life → Life
unfolding one_if is_finished
swap_in a = record a {
  open_sockets = a.open_sockets - one_if a.conn_open;
  conn_open = true;
  dialled = a.dialled - 1;
  loops = a.loops - 1;
  ending = a.ending + 1;
  late = if is_finished a.closer then true else a.late;
}

unfoldable pub leave_loop : Life → Life
leave_loop a = record a { loops = a.loops - 1; ending = a.ending + 1 }

-- The section of reconnectLoop's deferred call.
unfoldable pub clear_gate : Life → Life
clear_gate a = record a { reconnecting = false; gate = false; ending = a.ending - 1 }

-- ForceCloseTransport, or a remote side that goes away.
unfoldable pub lose_used : Life → Life
unfolding one_if
lose_used a = record a { open_sockets = a.open_sockets - one_if a.conn_open; conn_open = false }

pub data Step (a : Life) : Life → Type 0 where
  closes : a.closer ≡ uncalled → Step a (close_done a)
  closes_gate : a.closer ≡ at_gate → Step a (close_gate a)
  closes_window : a.closer ≡ at_window → Step a (close_window a)
  closes_pipe : a.closer ≡ at_pipe → Step a (close_pipe a)
  closes_used : a.closer ≡ at_conn → Step a (close_used a)
  passes : a.done ≡ false → Step a (pass_done a)
  starts : 0 < a.starting → Step a (start_loop a)
  opens : a.dialled < a.loops → Step a (open_dialled a)
  drops : 0 < a.dialled → Step a (close_dialled a)
  swaps : 0 < a.dialled → Step a (swap_in a)
  leaves : a.dialled < a.loops → Step a (leave_loop a)
  clears : 0 < a.ending → Step a (clear_gate a)
  loses : Step a (lose_used a)

pub data Reachable : Life → Type 0 where
  started : Reachable fresh_life
  stepped : {a b : Life} → Reachable a → Step a b → Reachable b
