-- ===== src/Adapter/Pinging.antt =====
-- pingLoopForGen and sendPingForGen of internal/protocol/adapter_resume.go: the loop that pings one
-- generation of the WebSocket, and what makes it give that up.
pub mod Overtaken
use session_proxy.Prelude.{
  ℕ, ◌≡◌, Bool, true, false, not, ◌&&◌, ◌||◌, List, [], ◌∷◌, Option, none, some, if◌then◌else◌,
}
use session_proxy.Adapter.Lifecycle.{Link, transport_failed, handle_transport_failure}
use session_proxy.Adapter.Reading.{is_stale}

-- One round: whether `done` is closed before the tick, what others do to the link before each look,
-- whether WriteControl fails, the first time and again, and whether the pause between is cut short.
pub record Tick : Type 0 where
  pub stopped : Bool
  pub at_tick : Link → Link
  pub at_ping : Link → Link
  pub at_failure : Link → Link
  pub at_pause : Link → Link
  pub at_retry : Link → Link
  pub at_second_failure : Link → Link
  pub at_report : Link → Link
  pub ping_failed : Bool
  pub pause_cut : Bool
  pub retry_failed : Bool

-- sendPingForGen: whether it returns an error.
unfoldable pub send_ping : ℕ → Link → Bool → Bool
unfolding is_stale
send_ping gen l write_failed = elim l.conn [
  | none ↦ true
  | some ws ↦ is_stale gen l || write_failed
]

-- The loop still pings, returned, or returned behind handleTransportFailure.
pub data Pinging : Type 0 where
  pings : Pinging
  returned : Pinging
  reported : Pinging

module _ (resume_enabled : Bool) (gen : ℕ) where
  -- handleTransportFailure at the end of a round.
  unfoldable pub report : Link → Pinging × Link
  unfolding handle_transport_failure
  report l = (reported, (handle_transport_failure resume_enabled transport_failed l).1)

  -- The pause and the second ping, and what comes next.
  unfoldable pub ping_again : Tick → Link → (Link → Pinging × Link) → Pinging × Link
  unfolding report send_ping is_stale
  ping_again t l next =
      let paused = t.at_pause l in
      let retried = t.at_retry paused in
      let failed = t.at_second_failure retried in
      if t.pause_cut
      then report paused
      else if not (send_ping gen retried t.retry_failed)
      then next retried
      else if is_stale gen failed
      then (returned, failed)
      else report (t.at_report failed)

  -- A round with what comes next.
  unfoldable pub ping_round : Tick → Link → (Link → Pinging × Link) → Pinging × Link
  unfolding ping_again send_ping is_stale
  ping_round t l next =
      let ticked = t.at_tick l in
      let pinged = t.at_ping ticked in
      let failed = t.at_failure pinged in
      if t.stopped
      then (returned, l)
      else if is_stale gen ticked
      then (returned, ticked)
      else if not (send_ping gen pinged t.ping_failed)
      then next pinged
      else if is_stale gen failed
      then (returned, failed)
      else ping_again t failed next

  -- pingLoopForGen
  unfoldable pub ping_loop : List Tick → Link → Pinging × Link
  unfolding ping_round
  ping_loop [] l = (pings, l)
  ping_loop (t ∷ ts) l = ping_round t l (ping_loop ts)
