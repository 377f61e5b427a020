-- ===== src/Pool/Selection.antt =====
-- selectConn and selectConnWithCapacity of internal/upstream/pool.go.
pub mod Least
pub mod Rounds
use session_proxy.Prelude.{
  ℕ, ◌+◌, ◌%◌, ◌^◌, Bool, true, false, ◌&&◌, ◌||◌, not, List, [], ◌∷◌, ◌++◌, Option, none, some,
  ◌==◌, ltb, leb, if◌then◌else◌, length,
}
use session_proxy.Pool.{SshConn, max_channels_per_conn, get_elem?}

-- The least load so far, and the connections that have it.
pub record Scan : Type 0 where
  pub min_active : ℕ
  pub min_inflight : ℕ
  pub candidates : List SshConn

abbrev pub no_scan : Scan
no_scan = record { min_active = 2 ^ 62; min_inflight = 2 ^ 62; candidates = [] }

-- One round of the loops.
unfoldable pub consider : SshConn → Scan → Scan
consider sc st =
    if ltb sc.active_channels st.min_active
      || (sc.active_channels == st.min_active && ltb sc.inflight_dials st.min_inflight)
    then record {
      min_active = sc.active_channels;
      min_inflight = sc.inflight_dials;
      candidates = sc ∷ [];
    }
    else if sc.active_channels == st.min_active && sc.inflight_dials == st.min_inflight
    then record st { candidates = st.candidates ++ (sc ∷ []) }
    else st

-- What selectConnWithCapacity passes over.
unfoldable pub has_capacity : SshConn → Bool
has_capacity sc =
    not sc.draining && not (leb max_channels_per_conn (sc.active_channels + sc.inflight_dials))

-- The loop over the connections that pass a test.
unfoldable pub scan_conns : (SshConn → Bool) → Scan → List SshConn → Scan
unfolding consider
scan_conns test st [] = st
scan_conns test st (sc ∷ conns) = scan_conns test (if test sc then consider sc st else st) conns

-- The next of the candidates, round robin, if there are any.
unfoldable pub pick : ℕ → List SshConn → Option SshConn × ℕ
pick next [] = (none, next)
pick next (sc ∷ scs) =
    (get_elem? (sc ∷ scs) ((next + 1) % 2 ^ 64 % length (sc ∷ scs)), (next + 1) % 2 ^ 64)

-- selectConnWithCapacity, with the counter nextConn.
unfoldable pub select_conn_with_capacity : ℕ → List SshConn → Option SshConn × ℕ
unfolding scan_conns has_capacity pick
select_conn_with_capacity next conns = pick next (scan_conns has_capacity no_scan conns).candidates

-- selectConn, which takes any connection where it finds no candidate.
unfoldable pub select_conn : ℕ → List SshConn → Option SshConn × ℕ
unfolding scan_conns pick
select_conn next [] = (none, next)
select_conn next (c ∷ conns) = elim (scan_conns (λ sc. true) no_scan (c ∷ conns)).candidates [
  | [] ↦ pick next (c ∷ conns)
  | sc ∷ scs ↦ pick next (sc ∷ scs)
]
