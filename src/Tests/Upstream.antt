-- ===== src/Tests/Upstream.antt =====
-- A pool of three connections, one of them draining.
use session_proxy.Prelude.{
  ℕ, ◌≡◌, ◌≤◌, ◌+◌, refl, true, false, List, [], ◌∷◌, none, some, All, ◌==◌, length,
}
use session_proxy.Pool.{SshConn, default_pool_size, max_channels_per_conn}
use session_proxy.Pool.Selection.{select_conn_with_capacity}
use session_proxy.Pool.Selection.Rounds.{AtMost}
use session_proxy.Pool.Selection.Least.{IsFree, IsIn, select_conn_with_capacity_picks}
use session_proxy.Pool.Waiting.{Pending, waiting_first, fetch_channel, look_for_room, look_again}
use session_proxy.Pool.Upkeep.{Upkeep, WakeProbe, maintain_conns}
use session_proxy.Pool.Upkeep.Removal.{Removed, Reason, maintain_conns-Removed}
use session_proxy.Pool.Channels.{
  Load, Reachable, no_load, reserve_channel, started, stepped, reserved, Reachable-channels,
  Anytime,
}

abbrev ssh : ℕ → ℕ → ℕ → SshConn
ssh id active inflight = record {
  id = id;
  active_channels = active;
  inflight_dials = inflight;
  draining = false;
}

abbrev conns : List SshConn
conns = ssh 1 2 1 ∷ record (ssh 2 0 0) { draining = true } ∷ ssh 3 2 0 ∷ []

selected : (select_conn_with_capacity 7 conns).0 ≡ some (ssh 3 2 0)
unfolding select_conn_with_capacity
selected = refl

select_conn_with_capacity_picks_example :
    ((sc : SshConn)
      → (select_conn_with_capacity 7 conns).0 ≡ some sc
      → IsIn sc conns
        × IsFree sc
        × All
            (λ other.
              IsFree other
              → AtMost sc.active_channels sc.inflight_dials other.active_channels
                  other.inflight_dials)
            conns)
    × ((select_conn_with_capacity 7 conns).0 ≡ none → All (λ sc. ¬ IsFree sc) conns)
select_conn_with_capacity_picks_example = select_conn_with_capacity_picks 7 conns

abbrev busy : List SshConn
busy = ssh 1 3 1 ∷ ssh 2 4 0 ∷ []

none_selected : (select_conn_with_capacity 7 busy).0 ≡ none
unfolding select_conn_with_capacity
none_selected = refl

abbrev one_dial : Load
one_dial = record no_load { inflight = 1 }

one_reserved : reserve_channel no_load ≡ some one_dial
unfolding reserve_channel
one_reserved = refl

Reachable-channels_example :
    (0 + 1 + 0 ≤ max_channels_per_conn) × ((k : Load) × Reachable Anytime k × (k.active ≡ 9))
Reachable-channels_example =
    Reachable-channels one_dial 9 (stepped started (reserved one_dial refl one_reserved))

-- One connection is done, another fails its probe after a wake.
abbrev upkeep : Upkeep
upkeep = record { conns = conns; closed = []; signals = 0; notified = false; last_maintain = 5 }

abbrev dead_three : SshConn → WakeProbe
dead_three sc = record { probe_failed = sc.id == 3; recent_inbound = false }

maintain_conns-Removed_example :
    All
      (λ c. ¬ Reason dead_three (λ d. d.id == 1) 60 100 upkeep c)
      (maintain_conns dead_three (λ c. c.id == 1) 60 100 upkeep).conns
    × Removed
        (Reason dead_three (λ c. c.id == 1) 60 100 upkeep)
        upkeep
        (maintain_conns dead_three (λ c. c.id == 1) 60 100 upkeep)
maintain_conns-Removed_example = maintain_conns-Removed dead_three (λ c. c.id == 1) 60 100 upkeep

leaves_two : length (maintain_conns dead_three (λ c. c.id == 1) 60 100 upkeep).conns ≡ 1
unfolding maintain_conns
leaves_two = refl

-- A dial sleeps, and a connection gets room.
abbrev asleep : Pending
asleep = record (look_again 0 (look_for_room false 0 (fetch_channel (waiting_first false)))) {
  room = true;
  owed = true;
}
