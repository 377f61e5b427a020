-- ===== src/Tests/Closings.antt =====
-- Close while a resume has a new WebSocket: it is swapped in behind Close and stays open.
use session_proxy.Prelude.{refl, true, false, arith}
use session_proxy.Adapter.Closing.{
  Life, over, close_done, close_gate, close_window, close_pipe, close_used, pass_done, start_loop,
  open_dialled, swap_in, clear_gate, one_if, is_finished, closes, closes_gate, closes_window,
  closes_pipe, closes_used, passes, starts, opens, swaps, clears, Reachable, started, stepped,
}
use session_proxy.Adapter.Closing.Settled.{IsSettled, Reachable-IsSettled}

abbrev left : Life
left = record {
  done = true;
  closer = over;
  reconnecting = false;
  gate = false;
  outgoing_closed = true;
  stream_open = false;
  conn_open = true;
  open_sockets = 1;
  starting = 0;
  loops = 0;
  dialled = 0;
  ending = 0;
  late = true;
}

left-Reachable : Reachable left
unfolding close_done close_gate close_window close_pipe close_used pass_done start_loop open_dialled
    swap_in clear_gate one_if is_finished
left-Reachable =
    let dialling =
      stepped (stepped (stepped started (passes refl)) (starts (omega arith)))
        (opens (omega arith)) in
    let closing =
      stepped (stepped (stepped dialling (closes refl)) (closes_gate refl)) (closes_window refl) in
    let closed = stepped (stepped closing (closes_pipe refl)) (closes_used refl) in
    stepped (stepped closed (swaps (omega arith))) (clears (omega arith))

Reachable-IsSettled_example : IsSettled left
Reachable-IsSettled_example = Reachable-IsSettled left left-Reachable
