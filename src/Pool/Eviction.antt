-- ===== src/Pool/Eviction.antt =====
-- The errors of a dial in internal/upstream/pool.go: isTransportError, removeConn and the branch of
-- Group.dial that evicts a connection. The pool is that of Upkeep, and a pointer is the id.
use session_proxy.Prelude.{
  ℕ, ◌+◌, ◌%◌, ◌^◌, ◌≡◌, refl, ap, Bool, true, false, ◌&&◌, ◌||◌, List, [], ◌∷◌, ◌++◌, ◌==◌,
  if◌then◌else◌, arith, Bool-cases, inl, inr,
}
use session_proxy.Prelude.Bytes.{Byte, Bytes, codes}
use session_proxy.Pool.{SshConn}
use session_proxy.Pool.Upkeep.{Upkeep}

-- strings.HasPrefix and strings.Contains.
unfoldable pub starts_with : Bytes → Bytes → Bool
starts_with s [] = true
starts_with [] (c ∷ cs) = false
starts_with (b ∷ bs) (c ∷ cs) = b == c && starts_with bs cs

unfoldable pub has_substring : Bytes → Bytes → Bool
unfolding starts_with
has_substring [] sub = starts_with [] sub
has_substring (b ∷ bs) sub = starts_with (b ∷ bs) sub || has_substring bs sub

-- What isTransportError sees of an error: what errors.Is finds in it, and its text.
pub record DialFailure : Type 0 where
  pub is_eof : Bool
  pub is_unexpected_eof : Bool
  pub is_net_closed : Bool
  pub is_closed_pipe : Bool
  pub is_epipe : Bool
  pub is_econnreset : Bool
  pub message : Bytes

unfoldable pub is_transport_error : DialFailure → Bool
unfolding has_substring
is_transport_error e =
    e.is_eof
    || e.is_unexpected_eof
    || e.is_net_closed
    || e.is_closed_pipe
    || e.is_epipe
    || e.is_econnreset
    || has_substring e.message (codes "use of closed network connection")
    || has_substring e.message (codes "closed pipe")
    || has_substring e.message (codes "ssh: unexpected packet")
    || has_substring e.message (codes "ssh: disconnect")
    || has_substring e.message (codes "ssh: handshake failed")

-- The loop of removeConn: whether it finds the connection, and what is left.
unfoldable pub has_id : ℕ → List SshConn → Bool
has_id id [] = false
has_id id (c ∷ cs) = c.id == id || has_id id cs

unfoldable pub without_conn : ℕ → List SshConn → List SshConn
without_conn id [] = []
without_conn id (c ∷ cs) = let rest = without_conn id cs in if c.id == id then cs else c ∷ rest

-- removeConn
unfoldable pub remove_ssh_conn : SshConn → Upkeep → Upkeep
unfolding has_id without_conn
remove_ssh_conn sc g =
    if has_id sc.id g.conns
    then record g {
      conns = without_conn sc.id g.conns;
      closed = g.closed ++ (sc ∷ []);
      signals = g.signals + 1;
      notified = true;
    }
    else g

-- The branch of dial for an error that the dial itself gave, with dialFailuresTotal.
unfoldable pub fail_dial : DialFailure → SshConn → Upkeep × ℕ → Upkeep × ℕ
unfolding is_transport_error remove_ssh_conn
fail_dial e sc (g, failures) =
    (if is_transport_error e then remove_ssh_conn sc g else g, (failures + 1) % 2 ^ 64)

-- Every connection is in the pool once.
pub IsUnique : List SshConn → Type 0
IsUnique [] = Unit
IsUnique (c ∷ cs) = (has_id c.id cs ≡ false) × IsUnique cs

has_id-without_conn :
    (id : ℕ) (cs : List SshConn) → IsUnique cs → has_id id (without_conn id cs) ≡ false
unfolding has_id without_conn IsUnique
has_id-without_conn id [] u = refl
has_id-without_conn id (c ∷ cs) u = ground (arith, u.0, has_id-without_conn id cs u.1)

remove_ssh_conn-again :
    (sc : SshConn) (g : Upkeep)
    → IsUnique g.conns
    → remove_ssh_conn sc (remove_ssh_conn sc g) ≡ remove_ssh_conn sc g
unfolding remove_ssh_conn
remove_ssh_conn-again sc g u = ground (arith, has_id-without_conn sc.id g.conns u)

-- Of the dials that fail on one broken connection the first evicts it, and the others only count.
fail_dial_again :
    (d e : DialFailure) (sc : SshConn) (g : Upkeep) (failures : ℕ)
    → IsUnique g.conns
    → is_transport_error d ≡ true
    → (fail_dial e sc (fail_dial d sc (g, failures))).0 ≡ (fail_dial d sc (g, failures)).0
unfolding fail_dial
fail_dial_again d e sc g failures u t = ground (arith, t, remove_ssh_conn-again sc g u)

and-both : (a b : Bool) → (a && b) ≡ true → (a ≡ true) × (b ≡ true)
and-both a b h = ground (arith, h)

cons_front :
    (b c : Byte) (bs cs post : Bytes)
    → (b == c) ≡ true
    → bs ≡ cs ++ post
    → b ∷ bs ≡ (c ∷ cs) ++ post
cons_front b c bs cs post h e = ground (arith, h, e)

starts_with_split : (s sub : Bytes) → starts_with s sub ≡ true → (post : Bytes) × (s ≡ sub ++ post)
unfolding starts_with
starts_with_split s [] h = (s, refl)
starts_with_split [] (c ∷ cs) h = ground (arith, h)
starts_with_split (b ∷ bs) (c ∷ cs) h =
    let (heads, rest) = and-both (b == c) (starts_with bs cs) h in
    let (post, e) = starts_with_split bs cs rest in (post, cons_front b c bs cs post heads e)

starts_with-append : (sub post : Bytes) → starts_with (sub ++ post) sub ≡ true
unfolding starts_with
starts_with-append [] post = ground arith
starts_with-append (c ∷ cs) post = ground (arith, starts_with-append cs post)

starts_with-has_substring : (s sub : Bytes) → starts_with s sub ≡ true → has_substring s sub ≡ true
unfolding has_substring
starts_with-has_substring [] sub h = h
starts_with-has_substring (b ∷ bs) sub h = ground (arith, h)

-- has_substring finds a text wherever it stands, and where it finds one it stands.
has_substring-append : (pre sub post : Bytes) → has_substring (pre ++ (sub ++ post)) sub ≡ true
unfolding has_substring
has_substring-append [] sub post =
    starts_with-has_substring (sub ++ post) sub (starts_with-append sub post)
has_substring-append (b ∷ pre) sub post = ground (arith, has_substring-append pre sub post)

contains_split :
    (s sub : Bytes)
    → has_substring s sub ≡ true
    → (pre : Bytes) × (post : Bytes) × (s ≡ pre ++ (sub ++ post))
unfolding has_substring
contains_split [] sub h = let (post, e) = starts_with_split [] sub h in ([], post, e)
contains_split (b ∷ bs) sub h = elim (Bool-cases (starts_with (b ∷ bs) sub)) [
  | inl h1 ↦ let (post, e) = starts_with_split (b ∷ bs) sub h1 in ([], post, e)
  | inr h2 ↦
      let (pre, post, e) = contains_split bs sub (ground (arith, h, h2)) in
      (b ∷ pre, post, ap (λ x. b ∷ x) e)
]
