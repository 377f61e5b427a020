-- ===== src/Tests/Startups.antt =====
-- The start of a pool: SSH, one connection, and all groups.
use session_proxy.Prelude.{ℕ, ◌≡◌, ◌*◌, refl, true, false, List, [], ◌∷◌, none, some, arith, map}
use session_proxy.Prelude.Bytes.{Bytes, codes, bytes_discrete}
use session_proxy.Ssh.{SshLogin, Machine, key_not_read, expand_path}
use session_proxy.Ssh.Answers.{Answered, connect-Answered}
use session_proxy.Pool.Connect.{Instances, established, not_established}
use session_proxy.Pool.Single.{Meets, Dialing, handshake_done}
use session_proxy.Pool.Startup.{Member, Arrival, connect_result, pool_connect}
use session_proxy.Pool.Startup.AllOrNone.{IsFresh, AllOrNone, pool_connect-AllOrNone}
use session_proxy.Pool.Growth.{
  Group, replenish_parallelism, count_conns, look_scale, scale_looked, append_scaled,
  replenish_pool,
}
use session_proxy.Pool.Growth.Bound.{
  Bounded, Reachable, connected, started, stepped, counts, looks, scales, scale_appends, reserves,
  Reachable-attempts,
}

-- The agent has a key, and the configured key is not there.
abbrev machine : Machine
machine = record {
  auth_sock = true;
  agent_dialled = true;
  signers = some 1;
  home = some (codes "/root");
  read_file = λ path. none;
  parses = λ key. true;
  handshake = some true;
}

abbrev login : SshLogin
login = record { user = codes "ec2-user"; private_key_path = codes "~/.ssh/id" }

connect-Answered_example :
    Answered machine login
      (session_proxy.Ssh.connect machine login)
      (session_proxy.Ssh.connect machine login).answer
    × ((session_proxy.Ssh.connect machine login).agent_open ≡ false)
connect-Answered_example = connect-Answered machine login

no_key : (session_proxy.Ssh.connect machine login).answer ≡ some key_not_read
unfolding session_proxy.Ssh.connect
no_key = refl

at_home : expand_path (some (codes "/root")) (codes "~/.ssh/id") ≡ codes "/root/.ssh/id"
unfolding expand_path bytes_discrete
at_home = refl

abbrev meets : Meets
meets = record {
  made_client = some 1;
  answer = some (record {
    stream_url = some (codes "wss://a");
    token_value = some (codes "t");
    answered_id = some (codes "s");
  });
  dialled = some 4;
  opened = true;
  done_at_once = false;
  waking = handshake_done;
  running = session_proxy.Adapter.Lifecycle.connected 4;
  machine = machine;
  shaken = session_proxy.Adapter.Lifecycle.connected 4;
}

abbrev dialing : Dialing
dialing = record { client = none; next_id = 6; keepalives = 2 }

-- The first group comes up, and the second does not.
abbrev instances : ℕ → Instances
instances n = record { number = n; current = 0; conns = [] }

abbrev group : Bytes → Member
group name = record {
  name = name;
  instances = instances 1;
  closed = [];
  maintained = false;
  cancelled = false;
}

abbrev arrivals : List Arrival
arrivals =
    record {
      group = group (codes "a");
      results = λ i.
          established (record { id = 7; active_channels = 0; inflight_dials = 0; draining = false })
          ∷ [];
    }
    ∷ record { group = group (codes "b"); results = λ i. not_established ∷ [] }
    ∷ []

fresh : (name : Bytes) → IsFresh (group name)
fresh name = record {
  current_valid = omega arith;
  no_conns = refl;
  none_closed = refl;
  not_maintained = refl;
}

pool_connect-AllOrNone_example : AllOrNone (map connect_result arrivals) (pool_connect arrivals)
pool_connect-AllOrNone_example =
    pool_connect-AllOrNone arrivals (fresh (codes "a"), (fresh (codes "b"), tt))

b_failed : (pool_connect arrivals).0 ≡ some (codes "b")
unfolding pool_connect
b_failed = refl

-- A pool of three: maintainOnce counts, startScale starts an attempt that connects, and a fourth and
-- a fifth connection are on their way when the old count is used.
abbrev grown : Group
grown = replenish_pool 5 3 (append_scaled (scale_looked 3 (look_scale (count_conns (connected 3)))))

Reachable-attempts_example :
    Bounded grown
    × ((k : Group) × Reachable (Unit {0}) k × (k.replenishing ≡ 3 * replenish_parallelism))
unfolding count_conns look_scale scale_looked append_scaled
Reachable-attempts_example = Reachable-attempts grown 3 (
    stepped
      (stepped
        (stepped (stepped (stepped (started 3 (omega arith)) (counts refl)) (looks refl))
          (scales 3 refl))
        (scale_appends (omega arith)))
      (reserves 5 3 refl))
