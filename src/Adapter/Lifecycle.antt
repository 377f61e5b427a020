-- ===== src/Adapter/Lifecycle.antt =====
-- The WebSocket of internal/protocol/adapter.go and adapter_resume.go and its end: closing, the
-- first error, the failure of the transport, and the resume that swaps in a new WebSocket.
use session_proxy.Prelude.{
  ℕ, ◌+◌, ◌%◌, ◌^◌, Bool, true, false, ◌&&◌, not, List, [], ◌∷◌, Option, none, some, ◌==◌,
  if◌then◌else◌,
}

-- The root causes that closeWithError records.
pub data CloseError : Type 0 where
  transport_failed channel_closed_by_remote pause_publication_timed_out : CloseError
  resend_attempts_exceeded resume_budget_exhausted handshake_failed ack_failed : CloseError

-- A WebSocket is a number; `sockets` lists those that the adapter has not closed. `looping` says that
-- reconnectLoop runs, and `dialing` that it is between its look at `done` and the outcome of the
-- attempt.
pub record Link : Type 0 where
  pub done : Bool
  pub close_reason : Option CloseError
  pub reconnecting : Bool
  pub reconnect_gate : Bool
  pub outgoing_closed : Bool
  pub stream_open : Bool
  pub conn : Option ℕ
  pub conn_gen : ℕ
  pub sockets : List ℕ
  pub looping : Bool
  pub dialing : Bool

-- What NewAdapter starts with.
abbrev pub connected : ℕ → Link
connected ws = record {
  done = false;
  close_reason = none;
  reconnecting = false;
  reconnect_gate = false;
  outgoing_closed = false;
  stream_open = true;
  conn = some ws;
  conn_gen = 1;
  sockets = ws ∷ [];
  looping = false;
  dialing = false;
}

-- ws.Close()
unfoldable pub close_socket : ℕ → List ℕ → List ℕ
close_socket ws [] = []
close_socket ws (w ∷ sockets) =
    let rest = close_socket ws sockets in if w == ws then rest else w ∷ rest

unfoldable pub close_conn : Option ℕ → List ℕ → List ℕ
unfolding close_socket
close_conn none sockets = sockets
close_conn (some ws) sockets = close_socket ws sockets

-- setCloseReason
unfoldable pub first_error : Option CloseError → CloseError → Option CloseError
first_error none e = some e
first_error (some first) e = some first

unfoldable pub set_close_reason : CloseError → Link → Link
unfolding first_error
set_close_reason e s = record s { close_reason = first_error s.close_reason e }

-- Close, whose body runs once, as one thread runs it: its sections for done, the gate, the window, the
-- connection and the pipe follow each other.
unfoldable pub close_adapter : Link → Link
unfolding close_conn
close_adapter s = if s.done then s else record s {
  done = true;
  reconnecting = false;
  reconnect_gate = s.reconnect_gate && not s.reconnecting;
  outgoing_closed = true;
  stream_open = false;
  sockets = close_conn s.conn s.sockets;
  conn = none;
}

-- closeWithError
unfoldable pub close_with_error : CloseError → Link → Link
unfolding set_close_reason close_adapter
close_with_error e s = close_adapter (set_close_reason e s)

-- swapConn
unfoldable pub swap_conn : ℕ → Link → Link
unfolding close_conn
swap_conn ws s = record s {
  sockets = ws ∷ close_conn s.conn s.sockets;
  conn = some ws;
  conn_gen = (s.conn_gen + 1) % 2 ^ 64;
}

-- startReconnect, where resuming is enabled: its look at done, and its section of reconnectMu behind it.
unfoldable pub start_reconnect : Link → Link
start_reconnect s =
    if s.done
    then s
    else if s.reconnecting
    then s
    else record s { reconnecting = true; reconnect_gate = true; looping = true }

unfoldable pub close_stream : Link → Link
close_stream s = record s { stream_open = false }

-- handleTransportFailure, and whether the adapter is closing for good.
unfoldable pub handle_transport_failure : Bool → CloseError → Link → Bool × Link
unfolding close_stream close_with_error start_reconnect
handle_transport_failure resume_enabled e s =
    if s.done
    then (true, s)
    else if not resume_enabled
    then (true, close_with_error e (close_stream s))
    else (false, start_reconnect s)

-- The look of reconnectLoop at `done` before an attempt, which it then makes.
unfoldable pub begin_attempt : Link → Link
begin_attempt s = record s { dialing = true }

-- An attempt that failed.
unfoldable pub fail_attempt : Link → Link
fail_attempt s = record s { dialing = false }

-- What reconnectLoop defers.
unfoldable pub end_loop : Link → Link
end_loop s = record s {
  reconnecting = false;
  reconnect_gate = false;
  looping = false;
  dialing = false;
}

-- reconnectLoop behind an attempt that opened a data channel on `ws`: swapConn, and the deferred call.
unfoldable pub finish_resume : ℕ → Link → Link
unfolding swap_conn end_loop
finish_resume ws s = end_loop (swap_conn ws s)

-- reconnectLoop behind its last attempt.
unfoldable pub exhaust_budget : Link → Link
unfolding close_stream close_with_error end_loop
exhaust_budget s = end_loop (close_with_error resume_budget_exhausted (close_stream s))

-- ForceCloseTransport
unfoldable pub force_close_transport : Link → Link
unfolding close_conn
force_close_transport s = record s { sockets = close_conn s.conn s.sockets }
