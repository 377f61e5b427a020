-- ===== src/Pool/Upkeep.antt =====
-- maintainOnce of internal/upstream/pool.go in front of its replenishing, and cleanup: which
-- connections leave the pool. What the probes and the done channels say are parameters; the reset of
-- the replenish backoff after a wake is left out. Time is in nanoseconds, and 0 is the zero time.
pub mod Removal
use session_proxy.Prelude.{
  ℕ, ◌+◌, ◌-◌, Bool, true, false, ◌&&◌, not, List, [], ◌∷◌, ◌++◌, ltb, ◌==◌, if◌then◌else◌,
}
use session_proxy.Pool.{SshConn}

-- `closed` lists the connections that were closed, `signals` counts the calls of
-- signalCapacityChange, and `notified` is the token of maintainCh.
pub record Upkeep : Type 0 where
  pub conns : List SshConn
  pub closed : List SshConn
  pub signals : ℕ
  pub notified : Bool
  pub last_maintain : ℕ

-- The connections that a test holds of, in order.
unfoldable pub select : (SshConn → Bool) → List SshConn → List SshConn
select test [] = []
select test (sc ∷ rest) = let kept = select test rest in if test sc then sc ∷ kept else kept

-- The probe of a connection after a wake: its error, and whether it has had inbound traffic.
pub record WakeProbe : Type 0 where
  pub probe_failed : Bool
  pub recent_inbound : Bool

unfoldable pub is_failed : WakeProbe → Bool
is_failed p = p.probe_failed && not p.recent_inbound

-- Whether maintainOnce takes the time since the last pass for a sleep.
unfoldable pub woke : ℕ → ℕ → Upkeep → Bool
woke threshold now g =
    not (g.last_maintain == 0) && ltb 0 threshold && ltb threshold (now - g.last_maintain)

-- The probes after a wake.
unfoldable pub remove_failed : (SshConn → WakeProbe) → Upkeep → Upkeep
unfolding select is_failed
remove_failed probe g = elim (select (λ c. is_failed (probe c)) g.conns) [
  | [] ↦ g
  | sc ∷ rest ↦ record g {
    conns = select (λ c. not (is_failed (probe c))) g.conns;
    closed = g.closed ++ (sc ∷ rest);
    signals = g.signals + 1;
    notified = true;
  }
]

-- The loop over the done channels.
unfoldable pub remove_done : (SshConn → Bool) → Upkeep → Upkeep
unfolding select
remove_done done g = record g {
  conns = select (λ c. not (done c)) g.conns;
  closed = g.closed ++ select done g.conns;
  signals = elim (select done g.conns) [ [] ↦ g.signals | sc ∷ rest ↦ g.signals + 1 ];
}

-- maintainOnce up to the replenishing, where nothing else changes the pool in the meantime.
unfoldable pub maintain_conns : (SshConn → WakeProbe) → (SshConn → Bool) → ℕ → ℕ → Upkeep → Upkeep
unfolding woke remove_failed remove_done
maintain_conns probe done threshold now g =
    remove_done done
      (record (if woke threshold now g then remove_failed probe g else g) { last_maintain = now })

-- cleanup
unfoldable pub cleanup : Upkeep → Upkeep
cleanup g = record g { conns = []; closed = g.closed ++ g.conns; signals = g.signals + 1 }
