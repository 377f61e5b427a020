-- ===== src/Pool/Selection/Rounds.antt =====
-- What the loop of selectConnWithCapacity of internal/upstream/pool.go keeps.
use session_proxy.Prelude.{
  ℕ, length-append, ◌^◌, ◌<◌, ◌≤◌, ◌≡◌, ◌⊎◌, refl, subst, ltb, ◌==◌, ◌&&◌, ◌||◌, inl, inr, Bool,
  true, false, List, [], ◌∷◌, ◌++◌, Bool-cases, arith, length, All, All-append, ap,
}
use session_proxy.Pool.{SshConn}
use session_proxy.Pool.Selection.{Scan, consider, scan_conns}

-- A load of channels and dials that is at most another's.
abbrev pub AtMost : ℕ → ℕ → ℕ → ℕ → Type 0
AtMost a i b j = (a < b) ⊎ ((a ≡ b) × (i ≤ j))

-- What a round of the loop does with a connection.
data Considered (sc : SshConn) (st : Scan) : Scan → Type 0 where
  lower :
      (sc.active_channels < st.min_active)
        ⊎ ((sc.active_channels ≡ st.min_active) × (sc.inflight_dials < st.min_inflight))
      → Considered sc st (record {
        min_active = sc.active_channels;
        min_inflight = sc.inflight_dials;
        candidates = sc ∷ [];
      })
  equal :
      sc.active_channels ≡ st.min_active
      → sc.inflight_dials ≡ st.min_inflight
      → Considered sc st (record st { candidates = st.candidates ++ (sc ∷ []) })
  higher :
      AtMost st.min_active st.min_inflight sc.active_channels sc.inflight_dials
      → Considered sc st st

consider-Considered : (sc : SshConn) (st : Scan) → Considered sc st (consider sc st)
unfolding consider
consider-Considered sc st =
    elim (Bool-cases (
      ltb sc.active_channels st.min_active
      || (sc.active_channels == st.min_active && ltb sc.inflight_dials st.min_inflight))) [
        | inl e ↦ subst (Considered sc st) (ground (arith, e)) (lower (ground (arith, e)))
        | inr e ↦
            elim (Bool-cases
              (sc.active_channels == st.min_active && sc.inflight_dials == st.min_inflight)) [
                | inl f ↦
                    subst (Considered sc st) (ground (arith, e, f))
                      (equal (ground (arith, f)) (ground (arith, f)))
                | inr f ↦
                    subst (Considered sc st) (ground (arith, e, f)) (higher (ground (arith, e, f)))
              ]
      ]

module _ (test : SshConn → Bool) (E : SshConn → Type 0) where
  -- A candidate passes the test and has the least load.
  unfoldable pub Candidate : Scan → SshConn → Type 0
  Candidate st sc =
      E sc
      × (test sc ≡ true)
      × (sc.active_channels ≡ st.min_active)
      × (sc.inflight_dials ≡ st.min_inflight)

  unfoldable pub Good : Scan → Type 0
  Good st = All (Candidate st) st.candidates

  consider-Good :
      (sc : SshConn) (st st' : Scan)
      → Considered sc st st'
      → E sc
      → test sc ≡ true
      → Good st
      → Good st'
  unfolding Good Candidate
  consider-Good sc st _ (lower l) e t h = ((e, t, refl, refl), tt)
  consider-Good sc st _ (equal a i) e t h =
      All-append (Candidate st) st.candidates (sc ∷ []) h ((e, t, a, i), tt)
  consider-Good sc st _ (higher l) e t h = h

  pub scan_conns-Good :
      (conns : List SshConn) (st : Scan) → All E conns → Good st → Good (scan_conns test st conns)
  unfolding scan_conns
  scan_conns-Good [] st e h = h
  scan_conns-Good (sc ∷ conns) st e h = elim (Bool-cases (test sc)) [
    | inl t ↦
        rw (t, scan_conns)
          (scan_conns-Good conns (consider sc st) e.1
            (consider-Good sc st _ (consider-Considered sc st) e.0 t h))
    | inr t ↦ rw (t, scan_conns) (scan_conns-Good conns st e.1 h)
  ]

module _ (test : SshConn → Bool) where
  scan_passed :
      (sc : SshConn) (conns : List SshConn) (st : Scan)
      → test sc ≡ true
      → scan_conns test (consider sc st) conns ≡ scan_conns test st (sc ∷ conns)
  unfolding scan_conns
  scan_passed sc conns st t = rw (t, scan_conns) refl

  scan_skipped :
      (sc : SshConn) (conns : List SshConn) (st : Scan)
      → test sc ≡ false
      → scan_conns test st conns ≡ scan_conns test st (sc ∷ conns)
  unfolding scan_conns
  scan_skipped sc conns st t = rw (t, scan_conns) refl

  -- No connection that passes the test has less than the load.
  abbrev Below : Scan → List SshConn → Type 0
  Below st conns =
      All
        (λ sc.
          test sc ≡ true
          → AtMost st.min_active st.min_inflight sc.active_channels sc.inflight_dials)
        conns

  consider-AtMost :
      (sc : SshConn) (st st' : Scan)
      → Considered sc st st'
      → AtMost st'.min_active st'.min_inflight st.min_active st.min_inflight
        × AtMost st'.min_active st'.min_inflight sc.active_channels sc.inflight_dials
  consider-AtMost sc st _ (lower l) = (ground (arith, l), ground (arith, l))
  consider-AtMost sc st _ (equal a i) = (ground arith, ground (arith, a, i))
  consider-AtMost sc st _ (higher l) = (ground arith, l)

  scan_conns-AtMost :
      (conns : List SshConn) (st : Scan)
      → AtMost
          (scan_conns test st conns).min_active
          (scan_conns test st conns).min_inflight
          st.min_active
          st.min_inflight
  unfolding scan_conns
  scan_conns-AtMost [] st = ground arith
  scan_conns-AtMost (sc ∷ conns) st =
      let (less, here) = consider-AtMost sc st _ (consider-Considered sc st) in
      ground (arith, scan_conns-AtMost conns st, scan_conns-AtMost conns (consider sc st), less)

  pub scan_conns-Below : (conns : List SshConn) (st : Scan) → Below (scan_conns test st conns) conns
  unfolding scan_conns
  scan_conns-Below [] st = tt
  scan_conns-Below (sc ∷ conns) st = elim (Bool-cases (test sc)) [
    | inl t ↦
        let (less, here) = consider-AtMost sc st _ (consider-Considered sc st) in
        subst (λ r. Below r (sc ∷ conns)) (scan_passed sc conns st t)
          (
            λ h. ground (arith, scan_conns-AtMost conns (consider sc st), here),
            scan_conns-Below conns (consider sc st),
          )
    | inr t ↦
        subst (λ r. Below r (sc ∷ conns)) (scan_skipped sc conns st t)
          (λ h. ground (arith, h, t), scan_conns-Below conns st)
  ]

  -- Before a candidate is found, the least load is the one that the loop starts with.
  unfoldable pub Started : Scan → Type 0
  Started st = st.candidates ≡ [] → (st.min_active ≡ 2 ^ 62) × (st.min_inflight ≡ 2 ^ 62)

  consider-Started :
      (sc : SshConn) (st st' : Scan) → Considered sc st st' → Started st → Started st'
  unfolding Started
  consider-Started sc st _ (lower l) s e = ground (arith, e)
  consider-Started sc st _ (equal a i) s e =
      ground (arith, ap length e, length-append st.candidates (sc ∷ []))
  consider-Started sc st _ (higher l) s e = s e

  pub scan_conns-Started :
      (conns : List SshConn) (st : Scan) → Started st → Started (scan_conns test st conns)
  unfolding scan_conns
  scan_conns-Started [] st s = s
  scan_conns-Started (sc ∷ conns) st s = elim (Bool-cases (test sc)) [
    | inl t ↦
        rw (t, scan_conns)
          (scan_conns-Started conns (consider sc st)
            (consider-Started sc st _ (consider-Considered sc st) s))
    | inr t ↦ rw (t, scan_conns) (scan_conns-Started conns st s)
  ]
