-- ===== src/Tests/Watches.antt =====
-- The watch of a client that sends data before its dial is over.
use session_proxy.Prelude.{◌≡◌, refl, true, false, [], ◌++◌, some, arith}
use session_proxy.Prelude.Bytes.{codes}
use session_proxy.Socks.Watching.{
  Watch, new_dial_context, look, arm, peek_data, peek_error, end_watch, watch_cancel, expire,
  stop_done, Steps, here, step, looks, arms, peeks, leaves, cancels, returns, PeekError,
  is_conn_closed_error, econnreset,
}
use session_proxy.Socks.Watching.Stopped.{is_gone, stop_watch-deadline}

abbrev seen_early : Watch
seen_early =
    end_watch (peek_data (codes "HI") [] (arm false (look (new_dial_context 5 (codes "HI")))))

abbrev left_early : Watch
left_early = stop_done (expire (watch_cancel seen_early))

seen_early-Steps : Steps (new_dial_context 5 (codes "HI")) (watch_cancel seen_early)
unfolding look arm peek_data end_watch watch_cancel
seen_early-Steps =
    step
      (step
        (step (step (step here (looks refl)) (arms false refl))
          (peeks (codes "HI") [] refl refl (ground arith)))
        (leaves refl))
      (cancels refl)

left_early-Steps : Steps (expire (watch_cancel seen_early)) left_early
unfolding look arm peek_data end_watch watch_cancel expire stop_done
left_early-Steps = step here (returns refl refl)

-- The deadline is the time of the dial, and both bytes are buffered.
stop_watch-deadline_example :
    (left_early.read_deadline ≡ some 5) × (left_early.sent ≡ left_early.buffered ++ left_early.wire)
unfolding look arm peek_data end_watch watch_cancel expire stop_done is_gone
stop_watch-deadline_example =
    stop_watch-deadline 5 (codes "HI") (watch_cancel seen_early) left_early seen_early-Steps refl
      left_early-Steps refl

abbrev reset : PeekError
reset = record {
  net_timeout = false;
  eof = false;
  net_closed = false;
  conn_errno = some econnreset;
  text = codes "connection reset by peer";
}

-- A client that goes away cancels the dial.
reset-cancels : (peek_error reset (arm false (look (new_dial_context 5 [])))).dial_cancelled ≡ true
unfolding look arm peek_error is_conn_closed_error
reset-cancels = refl
