-- ===== src/Pool/Connect.antt =====
-- connect and connectPool of internal/upstream/pool.go: the failover over the instances of an
-- upstream. What connectSingle does is a parameter.
pub mod Failover
use session_proxy.Prelude.{
  ℕ, zero, suc, ◌+◌, ◌%◌, Bool, true, false, List, [], ◌∷◌, Option, none, some, length,
  if◌then◌else◌,
}
use session_proxy.Pool.{SshConn}

-- What one of the connections of connectPool comes to, in the order of arrival.
pub data Single : Type 0 where
  established : SshConn → Single
  not_established : Single

pub record Instances : Type 0 where
  pub number : ℕ
  pub current : ℕ
  pub conns : List SshConn

-- advanceInstance
unfoldable pub advance_instance : Instances → Instances
advance_instance g = record g { current = (g.current + 1) % g.number }

-- newConns
unfoldable pub new_conns : List Single → List SshConn
new_conns [] = []
new_conns (established sc ∷ rest) = sc ∷ new_conns rest
new_conns (not_established ∷ rest) = new_conns rest

-- connectPool; none is the error that nothing could be established.
unfoldable pub connect_pool : List Single → Instances → Option Instances
unfolding new_conns
connect_pool results g = elim (new_conns results) [
  | [] ↦ none
  | sc ∷ rest ↦ some (record g { conns = sc ∷ rest })
]

module _ (results : ℕ → List Single) where
  -- The loop of connect. `results` says what the connections to an instance come to.
  unfoldable pub connect_loop : ℕ → Instances → Bool × Instances
  unfolding connect_pool advance_instance
  connect_loop zero g = (false, g)
  connect_loop (suc attempts) g = elim (connect_pool (results g.current) g) [
    | some h ↦ (true, h)
    | none ↦ connect_loop attempts (advance_instance g)
  ]

  -- connect
  unfoldable pub connect : Instances → Bool × Instances
  unfolding connect_loop
  connect g = connect_loop g.number g
