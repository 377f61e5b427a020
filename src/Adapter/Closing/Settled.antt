-- ===== src/Adapter/Closing/Settled.antt =====
-- What holds of an adapter through Close and resumes.
use session_proxy.Prelude.{ℕ, ◌+◌, ◌<◌, ◌≤◌, ◌≡◌, refl, true, false, arith}
use session_proxy.Adapter.Closing.{
  Closer, uncalled, at_gate, at_window, at_pipe, at_conn, over, is_finished, Life, one_if,
  close_done, close_gate, close_window, close_pipe, close_used, pass_done, start_loop, open_dialled,
  close_dialled, swap_in, leave_loop, clear_gate, lose_used, Step, closes, closes_gate,
  closes_window, closes_pipe, closes_used, passes, starts, opens, drops, swaps, leaves, clears,
  loses, Reachable, started, stepped,
}

-- How many of its sections Close has behind it.
unfoldable pub stage : Closer → ℕ
stage uncalled = 0
stage at_gate = 1
stage at_window = 2
stage at_pipe = 3
stage at_conn = 4
stage over = 5

-- Writers find a gate exactly while the adapter reconnects, and then a loop is there that clears it.
-- The open WebSockets are the one in use and those that loops have dialled; until Close has passed
-- the gate one loop runs at most. Each section of Close has its effect for good, but that a WebSocket may
-- be open behind it where one was swapped in later.
pub record IsSettled (a : Life) : Type 0 where
  pub gated : a.gate ≡ a.reconnecting
  pub served : a.reconnecting ≡ true → 0 < a.loops + a.ending
  pub counted : a.open_sockets ≡ one_if a.conn_open + a.dialled
  pub dialling : a.dialled ≤ a.loops
  pub one_loop : stage a.closer ≤ 1 → a.loops + a.ending ≡ one_if a.reconnecting
  pub told : (a.done ≡ false) → stage a.closer ≡ 0
  pub window_shut : 3 ≤ stage a.closer → a.outgoing_closed ≡ true
  pub pipe_shut : 4 ≤ stage a.closer → a.stream_open ≡ false
  pub left_open : stage a.closer ≡ 5 → a.conn_open ≡ true → a.late ≡ true

Step-IsSettled : (a b : Life) → Step a b → IsSettled a → IsSettled b
unfolding close_done close_gate close_window close_pipe close_used pass_done start_loop open_dialled
    close_dialled swap_in leave_loop clear_gate lose_used one_if is_finished stage
Step-IsSettled a _ (closes p) v = record {
  gated = ground (arith, v.gated, p);
  served = λ r. ground (arith, v.served, r, p);
  counted = ground (arith, v.counted, p);
  dialling = ground (arith, v.dialling, p);
  one_loop = λ c. ground (arith, v.one_loop, v.dialling, c, p);
  told = λ d. ground (arith, v.told, d, p);
  window_shut = λ c. ground (arith, v.window_shut, c, p);
  pipe_shut = λ c. ground (arith, v.pipe_shut, c, p);
  left_open = λ c o. ground (arith, v.left_open, c, o, p);
}
Step-IsSettled a _ (closes_gate p) v = record {
  gated = ground (arith, v.gated, p);
  served = λ r. ground (arith, v.served, r, p);
  counted = ground (arith, v.counted, p);
  dialling = ground (arith, v.dialling, p);
  one_loop = λ c. ground (arith, v.one_loop, v.dialling, c, p);
  told = λ d. ground (arith, v.told, d, p);
  window_shut = λ c. ground (arith, v.window_shut, c, p);
  pipe_shut = λ c. ground (arith, v.pipe_shut, c, p);
  left_open = λ c o. ground (arith, v.left_open, c, o, p);
}
Step-IsSettled a _ (closes_window p) v = record {
  gated = ground (arith, v.gated, p);
  served = λ r. ground (arith, v.served, r, p);
  counted = ground (arith, v.counted, p);
  dialling = ground (arith, v.dialling, p);
  one_loop = λ c. ground (arith, v.one_loop, v.dialling, c, p);
  told = λ d. ground (arith, v.told, d, p);
  window_shut = λ c. ground (arith, v.window_shut, c, p);
  pipe_shut = λ c. ground (arith, v.pipe_shut, c, p);
  left_open = λ c o. ground (arith, v.left_open, c, o, p);
}
Step-IsSettled a _ (closes_pipe p) v = record {
  gated = ground (arith, v.gated, p);
  served = λ r. ground (arith, v.served, r, p);
  counted = ground (arith, v.counted, p);
  dialling = ground (arith, v.dialling, p);
  one_loop = λ c. ground (arith, v.one_loop, v.dialling, c, p);
  told = λ d. ground (arith, v.told, d, p);
  window_shut = λ c. ground (arith, v.window_shut, c, p);
  pipe_shut = λ c. ground (arith, v.pipe_shut, c, p);
  left_open = λ c o. ground (arith, v.left_open, c, o, p);
}
Step-IsSettled a _ (closes_used p) v = record {
  gated = ground (arith, v.gated, p);
  served = λ r. ground (arith, v.served, r, p);
  counted = ground (arith, v.counted, p);
  dialling = ground (arith, v.dialling, p);
  one_loop = λ c. ground (arith, v.one_loop, v.dialling, c, p);
  told = λ d. ground (arith, v.told, d, p);
  window_shut = λ c. ground (arith, v.window_shut, c, p);
  pipe_shut = λ c. ground (arith, v.pipe_shut, c, p);
  left_open = λ c o. ground (arith, v.left_open, c, o, p);
}
Step-IsSettled a _ (passes p) v = record {
  gated = ground (arith, v.gated, p);
  served = λ r. ground (arith, v.served, r, p);
  counted = ground (arith, v.counted, p);
  dialling = ground (arith, v.dialling, p);
  one_loop = λ c. ground (arith, v.one_loop, v.dialling, c, p);
  told = λ d. ground (arith, v.told, d, p);
  window_shut = λ c. ground (arith, v.window_shut, c, p);
  pipe_shut = λ c. ground (arith, v.pipe_shut, c, p);
  left_open = λ c o. ground (arith, v.left_open, c, o, p);
}
Step-IsSettled a _ (starts p) v = record {
  gated = ground (arith, v.gated, p);
  served = λ r. ground (arith, v.served, r, p);
  counted = ground (arith, v.counted, p);
  dialling = ground (arith, v.dialling, p);
  one_loop = λ c. ground (arith, v.one_loop, v.dialling, c, p);
  told = λ d. ground (arith, v.told, d, p);
  window_shut = λ c. ground (arith, v.window_shut, c, p);
  pipe_shut = λ c. ground (arith, v.pipe_shut, c, p);
  left_open = λ c o. ground (arith, v.left_open, c, o, p);
}
Step-IsSettled a _ (opens p) v = record {
  gated = ground (arith, v.gated, p);
  served = λ r. ground (arith, v.served, r, p);
  counted = ground (arith, v.counted, p);
  dialling = ground (arith, v.dialling, p);
  one_loop = λ c. ground (arith, v.one_loop, v.dialling, c, p);
  told = λ d. ground (arith, v.told, d, p);
  window_shut = λ c. ground (arith, v.window_shut, c, p);
  pipe_shut = λ c. ground (arith, v.pipe_shut, c, p);
  left_open = λ c o. ground (arith, v.left_open, c, o, p);
}
Step-IsSettled a _ (drops p) v = record {
  gated = ground (arith, v.gated, p);
  served = λ r. ground (arith, v.served, r, p);
  counted = ground (arith, v.counted, p);
  dialling = ground (arith, v.dialling, p);
  one_loop = λ c. ground (arith, v.one_loop, v.dialling, c, p);
  told = λ d. ground (arith, v.told, d, p);
  window_shut = λ c. ground (arith, v.window_shut, c, p);
  pipe_shut = λ c. ground (arith, v.pipe_shut, c, p);
  left_open = λ c o. ground (arith, v.left_open, c, o, p);
}
Step-IsSettled a _ (swaps p) v = record {
  gated = ground (arith, v.gated, p);
  served = λ r. ground (arith, v.served, r, p);
  counted = ground (arith, v.counted, p);
  dialling = ground (arith, v.dialling, p);
  one_loop = λ c. ground (arith, v.one_loop, v.dialling, c, p);
  told = λ d. ground (arith, v.told, d, p);
  window_shut = λ c. ground (arith, v.window_shut, c, p);
  pipe_shut = λ c. ground (arith, v.pipe_shut, c, p);
  left_open = λ c o. ground (arith, v.left_open, c, o, p);
}
Step-IsSettled a _ (leaves p) v = record {
  gated = ground (arith, v.gated, p);
  served = λ r. ground (arith, v.served, r, p);
  counted = ground (arith, v.counted, p);
  dialling = ground (arith, v.dialling, p);
  one_loop = λ c. ground (arith, v.one_loop, v.dialling, c, p);
  told = λ d. ground (arith, v.told, d, p);
  window_shut = λ c. ground (arith, v.window_shut, c, p);
  pipe_shut = λ c. ground (arith, v.pipe_shut, c, p);
  left_open = λ c o. ground (arith, v.left_open, c, o, p);
}
Step-IsSettled a _ (clears p) v = record {
  gated = ground (arith, v.gated, p);
  served = λ r. ground (arith, v.served, r, p);
  counted = ground (arith, v.counted, p);
  dialling = ground (arith, v.dialling, p);
  one_loop = λ c. ground (arith, v.one_loop, v.dialling, c, p);
  told = λ d. ground (arith, v.told, d, p);
  window_shut = λ c. ground (arith, v.window_shut, c, p);
  pipe_shut = λ c. ground (arith, v.pipe_shut, c, p);
  left_open = λ c o. ground (arith, v.left_open, c, o, p);
}
Step-IsSettled a _ loses v = record {
  gated = ground (arith, v.gated);
  served = λ r. ground (arith, v.served, r);
  counted = ground (arith, v.counted);
  dialling = ground (arith, v.dialling);
  one_loop = λ c. ground (arith, v.one_loop, v.dialling, c);
  told = λ d. ground (arith, v.told, d);
  window_shut = λ c. ground (arith, v.window_shut, c);
  pipe_shut = λ c. ground (arith, v.pipe_shut, c);
  left_open = λ c o. ground (arith, v.left_open, c, o);
}

-- However Close, failures of the transport and resumes interleave, section by section: writers find a
-- gate exactly while the adapter reconnects, and then a loop is there that clears it; the open
-- WebSockets are the one in use and those that loops have dialled, at most one until Close has passed the
-- gate; behind Close the window and the pipe are closed, and the WebSocket in use is open only where
-- a loop swapped it in behind Close.
pub Reachable-IsSettled : (a : Life) → Reachable a → IsSettled a
unfolding one_if stage
Reachable-IsSettled _ started = record {
  gated = refl;
  served = λ r. ground (arith, r);
  counted = refl;
  dialling = omega arith;
  one_loop = λ c. refl;
  told = λ d. refl;
  window_shut = λ c. ground (arith, c);
  pipe_shut = λ c. ground (arith, c);
  left_open = λ c o. ground (arith, c);
}
Reachable-IsSettled _ (stepped {a} {b} r s) = Step-IsSettled a b s (Reachable-IsSettled a r)
