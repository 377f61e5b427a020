-- ===== src/Pool.antt =====
-- internal/upstream/pool.go: the SSH connections to one upstream. Instants and durations are
-- nanoseconds, and the instant 0 is none.
pub mod Waiting
pub mod Selection
pub mod Growth
pub mod Channels
pub mod Upkeep
pub mod Eviction
pub mod Connect
pub mod Single
pub mod Startup
pub mod Handoff
pub mod Keepalive
pub mod Reconnect
use session_proxy.Prelude.{
  ℕ, ◌*◌, Bool, true, false, List, [], ◌∷◌, Option, none, some, if◌then◌else◌, ◌==◌,
}

abbrev pub second : ℕ
second = 1000000000

abbrev pub default_pool_size : ℕ
default_pool_size = 4

abbrev pub max_pool_size : ℕ
max_pool_size = 12

abbrev pub max_channels_per_conn : ℕ
max_channels_per_conn = 4

-- An SSH connection, by its id; its counters are numbers, which the code never takes below 0.
pub record SshConn : Type 0 where
  pub id : ℕ
  pub active_channels : ℕ
  pub inflight_dials : ℕ
  pub draining : Bool

-- The element at an index.
abbrev pub get_elem? {ℓ} : {A : Type ℓ} → List A → ℕ → Option A
get_elem? [] i = none
get_elem? (x ∷ xs) Prim.Native.Nat.zero = some x
get_elem? (x ∷ xs) (Prim.Native.Nat.suc i) = get_elem? xs i
