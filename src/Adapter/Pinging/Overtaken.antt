-- ===== src/Adapter/Pinging/Overtaken.antt =====
-- What pingLoopForGen of internal/protocol/adapter_resume.go does to a WebSocket that is new.
use session_proxy.Prelude.{ℕ, ◌+◌, ◌%◌, ◌^◌, ◌≡◌, ◌≢◌, Bool, true, false, List, ◌∷◌, some, arith}
use session_proxy.Adapter.Lifecycle.{
  Link, handle_transport_failure, start_reconnect, finish_resume, end_loop, swap_conn,
}
use session_proxy.Adapter.Reading.{is_stale}
use session_proxy.Adapter.Pinging.{
  Tick, returned, reported, send_ping, report, ping_again, ping_round, ping_loop,
}

-- A loop whose generation is over at its tick, or at the look behind a ping that failed, leaves the
-- adapter alone.
ping_loop_stale :
    (enabled : Bool) (gen : ℕ) (t : Tick) (ts : List Tick) (l : Link)
    → (t.at_tick l).conn_gen ≢ gen
    → t.stopped ≡ false
    → ping_loop enabled gen (t ∷ ts) l ≡ (returned, t.at_tick l)
unfolding ping_loop ping_round is_stale
ping_loop_stale enabled gen t ts l h s = ground (arith, h, s)

module _ (gen ws : ℕ) (l : Link) (ts : List Tick) where
  -- A tick at which both pings fail, while others resume at the last moment.
  abbrev late_tick : Tick
  late_tick = record {
    stopped = false;
    at_tick = λ k. k;
    at_ping = λ k. k;
    at_failure = λ k. k;
    at_pause = λ k. k;
    at_retry = λ k. k;
    at_second_failure = λ k. k;
    at_report = finish_resume ws;
    ping_failed = true;
    pause_cut = false;
    retry_failed = true;
  }

  -- The look at the generation and handleTransportFailure are two steps: where the WebSocket is
  -- resumed between them, pingLoopForGen reports the failure of the old one against the new one, and
  -- startReconnect begins to replace a WebSocket that has not failed.
  ping_loop-overtaken :
      l.done ≡ false
      → l.conn_gen ≡ gen
      → ((ping_loop true gen (late_tick ∷ ts) l).0 ≡ reported)
        × ((ping_loop true gen (late_tick ∷ ts) l).1.conn ≡ some ws)
        × ((ping_loop true gen (late_tick ∷ ts) l).1.conn_gen ≡ (gen + 1) % 2 ^ 64)
        × ((ping_loop true gen (late_tick ∷ ts) l).1.reconnecting ≡ true)
        × ((ping_loop true gen (late_tick ∷ ts) l).1.looping ≡ true)
  unfolding ping_loop ping_round ping_again report send_ping is_stale handle_transport_failure
      start_reconnect finish_resume end_loop swap_conn
  ping_loop-overtaken d g = ground (arith, d, g)
