-- ===== src/Pool/Startup.antt =====
-- Connect and Close of the Pool of internal/upstream/pool.go over its groups. The goroutines of
-- Connect are listed in the order in which their results arrive.
pub mod AllOrNone
use session_proxy.Prelude.{
  ℕ, Bool, true, false, List, [], ◌∷◌, ◌++◌, Option, none, some, map, if◌then◌else◌,
}
use session_proxy.Prelude.Bytes.{Bytes}
use session_proxy.Pool.{SshConn}
use session_proxy.Pool.Connect.{Single, Instances, connect}

-- A group: its instances with its connections, those that cleanup has closed, whether maintain
-- runs, and whether its context was cancelled.
pub record Member : Type 0 where
  pub name : Bytes
  pub instances : Instances
  pub closed : List SshConn
  pub maintained : Bool
  pub cancelled : Bool

-- A goroutine of Connect: its group, and what the connections to each instance come to.
pub record Arrival : Type 0 where
  pub group : Member
  pub results : ℕ → List Single

-- A connectResult: whether connect succeeded, and the group behind it.
unfoldable pub connect_result : Arrival → Bool × Member
unfolding connect
connect_result a =
    let (ok, instances) = connect a.results a.group.instances in
    (ok, record a.group { instances = instances })

-- The first error, by the name of its group.
unfoldable pub first_error : List (Bool × Member) → Option Bytes
first_error [] = none
first_error ((ok, g) ∷ rest) = let later = first_error rest in if ok then later else some g.name

-- cleanup
unfoldable pub cleanup_member : Member → Member
cleanup_member g = record g {
  instances = record g.instances { conns = [] };
  closed = g.closed ++ g.instances.conns;
}

-- What an error does to a group: those that have connected are cleaned up.
unfoldable pub give_back : Bool × Member → Member
unfolding cleanup_member
give_back (ok, g) = if ok then cleanup_member g else g

-- What success does.
unfoldable pub start_maintain : Bool × Member → Member
start_maintain (ok, g) = record g { maintained = true }

-- Connect: its error, and the groups.
unfoldable pub connect_groups : List (Bool × Member) → Option Bytes × List Member
unfolding first_error give_back start_maintain
connect_groups results = elim (first_error results) [
  | some name ↦ (some name, map give_back results)
  | none ↦ (none, map start_maintain results)
]

unfoldable pub pool_connect : List Arrival → Option Bytes × List Member
unfolding connect_result connect_groups
pool_connect arrivals = connect_groups (map connect_result arrivals)

-- Close
unfoldable pub close_member : Member → Member
unfolding cleanup_member
close_member g = record (cleanup_member g) { cancelled = true }

unfoldable pub pool_close : List Member → List Member
unfolding close_member
pool_close groups = map close_member groups
