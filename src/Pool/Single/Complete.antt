-- ===== src/Pool/Single/Complete.antt =====
-- What connectSingle of internal/upstream/pool.go comes to, and leaves behind.
use session_proxy.Prelude.{ℕ, ◌+◌, ◌%◌, ◌^◌, ◌≡◌, ◌≢◌, ◌⊎◌, true, false, [], ◌∷◌, none, some}
use session_proxy.Adapter.Lifecycle.{Link}
use session_proxy.Ssm.{Answer}
use session_proxy.Ssh.{Machine, SshLogin}
use session_proxy.Pool.Single.{
  wait_for_handshake, Meets, Single, established, failed, crashed, Dialing,
}

-- The adapter uses the one WebSocket that is open and no reconnectLoop runs, or something else has
-- closed it, with its WebSocket.
abbrev pub IsSteady : Link → Type 0
IsSteady l =
    ((l.done ≡ false)
      × (l.looping ≡ false)
      × ((ws : ℕ) × (l.conn ≡ some ws) × (l.sockets ≡ ws ∷ [])))
    ⊎ ((l.done ≡ true) × (l.sockets ≡ []))

-- So it is when connectSingle closes it.
pub record IsAlive (m : Meets) : Type 0 where
  pub running_steady : IsSteady m.running
  pub shaken_steady : IsSteady m.shaken

-- Every step succeeded.
pub record Succeeded (cfg : SshLogin) (m : Meets) : Type 0 where
  pub socket_opened : (m.dialled ≢ none) × (m.opened ≡ true)
  pub handshake_over : wait_for_handshake m.done_at_once m.waking ≡ none
  pub ssh_connected : (session_proxy.Ssh.connect m.machine cfg).answer ≡ none

-- A connection has a new id and its keepalives. An error leaves the counts, and no WebSocket open. A
-- panic comes of an answer without an id alone.
abbrev pub Fate : SshLogin → Meets → Dialing → Single × Dialing → Type 0
Fate cfg m d (established id l, e) =
    Succeeded cfg m
    × (id ≡ (d.next_id + 1) % 2 ^ 64)
    × (e.next_id ≡ id)
    × (e.keepalives ≡ d.keepalives + 1)
Fate cfg m d (failed error sockets, e) =
    (sockets ≡ []) × (e.next_id ≡ d.next_id) × (e.keepalives ≡ d.keepalives)
Fate cfg m d (crashed, e) =
    (a : Answer) × (m.answer ≡ some a)
    × (a.stream_url ≢ none)
    × (a.token_value ≢ none)
    × (a.answered_id ≡ none)

module _ (cfg : SshLogin) (m : Meets) (d : Dialing) where
  abbrev Holds : Single × Dialing → Type 0
  Holds r = Fate cfg m d r
