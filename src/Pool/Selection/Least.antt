-- ===== src/Pool/Selection/Least.antt =====
-- What the selection of internal/upstream/pool.go finds.
use session_proxy.Prelude.{
  ℕ, ◌↔◌, ◌+◌, ◌%◌, ◌^◌, ◌<◌, ◌≡◌, ◌≢◌, refl, subst, inl, inr, true, false, List, [], ◌∷◌, ◌++◌,
  none, some, Bool-cases, arith, length, All, All-imp, append_assoc, zero, suc,
}
use session_proxy.Pool.{SshConn, get_elem?}
use session_proxy.Pool.Selection.{
  no_scan, has_capacity, scan_conns, pick, select_conn_with_capacity,
}
use session_proxy.Pool.Selection.Rounds.{
  AtMost, Candidate, Good, scan_conns-Good, scan_conns-Below, Started, scan_conns-Started,
}

abbrev pub IsIn : SshConn → List SshConn → Type 0
IsIn sc conns = (before after : List SshConn) × (conns ≡ before ++ (sc ∷ after))

All-IsIn : (before conns : List SshConn) → All (λ sc. IsIn sc (before ++ conns)) conns
All-IsIn before [] = tt
All-IsIn before (c ∷ conns) = (
  (before, conns, refl),
  subst (λ all. All (λ sc. IsIn sc all) conns) (append_assoc before (c ∷ []) conns)
      (All-IsIn (before ++ (c ∷ [])) conns),
)

get_elem?-All :
    (P : SshConn → Type 0) (xs : List SshConn) (i : ℕ) (x : SshConn)
    → All P xs
    → get_elem? xs i ≡ some x
    → P x
get_elem?-All P [] i x h e = ground (arith, e)
get_elem?-All P (y ∷ xs) zero x h e = subst P (ground (arith, e)) h.0
get_elem?-All P (y ∷ xs) (suc i) x h e = get_elem?-All P xs i x h.1 e

get_elem?-ne-none : (xs : List SshConn) (i : ℕ) → i < length xs → get_elem? xs i ≢ none
get_elem?-ne-none [] i h e = omega arith
get_elem?-ne-none (x ∷ xs) zero h e = ground (arith, e)
get_elem?-ne-none (x ∷ xs) (suc i) h e = get_elem?-ne-none xs i (omega arith) e

pick-All :
    (P : SshConn → Type 0) (next : ℕ) (xs : List SshConn) (x : SshConn)
    → All P xs
    → (pick next xs).0 ≡ some x
    → P x
unfolding pick
pick-All P next [] x h e = ground (arith, e)
pick-All P next (y ∷ xs) x h e = get_elem?-All P (y ∷ xs) _ x h e

pick-none : (next : ℕ) (xs : List SshConn) → (pick next xs).0 ≡ none → xs ≡ []
unfolding pick
pick-none next [] e = refl
pick-none next (y ∷ xs) e =
    elim (get_elem?-ne-none (y ∷ xs) ((next + 1) % 2 ^ 64 % suc (length xs)) (omega arith) e) [ ]

select_conn_with_capacity-Least :
    (next : ℕ) (conns : List SshConn) (sc : SshConn)
    → (select_conn_with_capacity next conns).0 ≡ some sc
    → IsIn sc conns
      × (has_capacity sc ≡ true)
      × All
          (λ other.
            has_capacity other ≡ true
            → AtMost sc.active_channels sc.inflight_dials other.active_channels
                other.inflight_dials)
          conns
unfolding select_conn_with_capacity Good Candidate
select_conn_with_capacity-Least next conns sc e =
    let (here, able, a, i) =
      pick-All (Candidate has_capacity (λ c. IsIn c conns) (scan_conns has_capacity no_scan conns))
        next _ sc
        (scan_conns-Good has_capacity (λ c. IsIn c conns) conns no_scan (All-IsIn [] conns) tt) e in
    (
      here,
      able,
      All-imp _ _ conns (λ other f h. ground (arith, f h, a, i))
          (scan_conns-Below has_capacity conns no_scan),
    )

no_capacity :
    (sc : SshConn) (least i : ℕ)
    → least ≡ 2 ^ 62
    → (has_capacity sc ≡ true → AtMost least i sc.active_channels sc.inflight_dials)
    → has_capacity sc ≡ false
unfolding has_capacity
no_capacity sc least i e f = elim (Bool-cases (has_capacity sc)) [
  | inl h ↦ ground (arith, f h, h, e)
  | inr h ↦ h
]

select_conn_with_capacity-none :
    (next : ℕ) (conns : List SshConn)
    → (select_conn_with_capacity next conns).0 ≡ none
    → All (λ sc. has_capacity sc ≡ false) conns
unfolding select_conn_with_capacity Started
select_conn_with_capacity-none next conns e =
    let (a, i) =
      scan_conns-Started has_capacity conns no_scan (λ h. (refl, refl)) (pick-none next _ e) in
    All-imp _ _ conns (λ sc f. no_capacity sc _ _ a f) (scan_conns-Below has_capacity conns no_scan)

-- Whether a dial may take a connection: it is not draining, and fewer than four channels are open
-- on it or about to be.
abbrev pub IsFree : SshConn → Type 0
IsFree sc = (sc.draining ≡ false) × (sc.active_channels + sc.inflight_dials < 4)

has_capacity_iff : (sc : SshConn) → (has_capacity sc ≡ true) ↔ IsFree sc
unfolding has_capacity
has_capacity_iff sc = (λ h. ground (arith, h), λ h. ground (arith, h.0, h.1))

has_capacity_not : (sc : SshConn) → has_capacity sc ≡ false → ¬ IsFree sc
unfolding has_capacity
has_capacity_not sc h f = ground (arith, h, f.0, f.1)

-- The connection that is selected for a dial is one of the pool's, not draining and with fewer than
-- four channels open or about to be, and no other such connection has less load: fewer channels, or
-- as many and fewer dials under way. None is selected only where every connection is draining or has
-- four channels open or about to be.
pub select_conn_with_capacity_picks :
    (next : ℕ) (conns : List SshConn)
    → ((sc : SshConn)
        → (select_conn_with_capacity next conns).0 ≡ some sc
        → IsIn sc conns
          × IsFree sc
          × All
              (λ other.
                IsFree other
                → AtMost sc.active_channels sc.inflight_dials other.active_channels
                    other.inflight_dials)
              conns)
      × ((select_conn_with_capacity next conns).0 ≡ none → All (λ sc. ¬ IsFree sc) conns)
select_conn_with_capacity_picks next conns = (
  λ sc e.
      let (here, able, least) = select_conn_with_capacity-Least next conns sc e in
      (
        here,
        (has_capacity_iff sc).0 able,
        All-imp _ _ conns (λ other f h. f ((has_capacity_iff other).1 h)) least,
      ),
  λ e. All-imp _ _ conns has_capacity_not (select_conn_with_capacity-none next conns e),
)
