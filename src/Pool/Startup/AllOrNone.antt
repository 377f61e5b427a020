-- ===== src/Pool/Startup/AllOrNone.antt =====
-- That Connect of the Pool of internal/upstream/pool.go connects all groups or none.
use session_proxy.Prelude.{
  ℕ, ◌<◌, ◌≡◌, ◌≢◌, ◌⊎◌, inl, inr, refl, sym, subst, ◌∙◌, ap, Bool, true, false, List, [], ◌∷◌,
  ◌++◌, Option, none, some, map, arith, All, Option-cases,
}
use session_proxy.Prelude.Bytes.{Bytes}
use session_proxy.Pool.Connect.{Single, Instances, connect}
use session_proxy.Pool.Connect.Failover.{Settles, settles, nowhere, connect-Settles}
use session_proxy.Pool.Startup.{
  Member, Arrival, connect_result, first_error, cleanup_member, give_back, start_maintain,
  connect_groups, pool_connect,
}

-- A group before Connect: it has instances and nothing else.
pub record IsFresh (g : Member) : Type 0 where
  pub current_valid : g.instances.current < g.instances.number
  pub no_conns : g.instances.conns ≡ []
  pub none_closed : g.closed ≡ []
  pub not_maintained : g.maintained ≡ false

-- A group that Connect has left to itself: what it had connected is closed.
pub record IsGivenBack (g : Member) : Type 0 where
  pub none_left : g.instances.conns ≡ []
  pub unmaintained : g.maintained ≡ false

-- A group that serves.
pub record IsServing (g : Member) : Type 0 where
  pub connected : g.instances.conns ≢ []
  pub nothing_closed : g.closed ≡ []
  pub maintained_now : g.maintained ≡ true

-- What a result says of its group.
record IsResult (r : Bool × Member) : Type 0 where
  known : ((r.0 ≡ true) × (r.1.instances.conns ≢ [])) ⊎ ((r.0 ≡ false) × (r.1.instances.conns ≡ []))
  closed_none : r.1.closed ≡ []
  idle : r.1.maintained ≡ false

connect-known :
    (results : ℕ → List Single) (g : Instances)
    → g.current < g.number
    → g.conns ≡ []
    → (((connect results g).0 ≡ true) × ((connect results g).1.conns ≢ []))
      ⊎ (((connect results g).0 ≡ false) × ((connect results g).1.conns ≡ []))
connect-known results g p e = known_by (connect results g).0 (connect-Settles results g p).0
  where
    known_by :
        (b : Bool)
        → Settles results g (connect results g).1 g.number b
        → ((b ≡ true) × ((connect results g).1.conns ≢ []))
          ⊎ ((b ≡ false) × ((connect results g).1.conns ≡ []))
    known_by _ (settles steps l c cs ne before) = inl (refl, ne)
    known_by _ (nowhere c cs before) = inr (refl, cs ∙ e)

connect_result-IsResult : (a : Arrival) → IsFresh a.group → IsResult (connect_result a)
unfolding connect_result
connect_result-IsResult a f = record {
  known = connect-known a.results a.group.instances f.current_valid f.no_conns;
  closed_none = f.none_closed;
  idle = f.not_maintained;
}

results-IsResult :
    (arrivals : List Arrival)
    → All (λ a. IsFresh a.group) arrivals
    → All IsResult (map connect_result arrivals)
results-IsResult [] fs = tt
results-IsResult (a ∷ rest) (f, fs) = (connect_result-IsResult a f, results-IsResult rest fs)

-- The first result that is an error, and its name.
pub data FirstFailure (name : Bytes) : List (Bool × Member) → Type 0 where
  here :
      {g : Member} {rest : List (Bool × Member)}
      → g.name ≡ name
      → FirstFailure name ((false, g) ∷ rest)
  later :
      {g : Member} {rest : List (Bool × Member)}
      → FirstFailure name rest
      → FirstFailure name ((true, g) ∷ rest)

first_error-FirstFailure :
    (rs : List (Bool × Member)) (name : Bytes) → first_error rs ≡ some name → FirstFailure name rs
unfolding first_error
first_error-FirstFailure [] name h = absurd (ground (arith, h))
first_error-FirstFailure ((true, g) ∷ rs) name h = later (first_error-FirstFailure rs name h)
first_error-FirstFailure ((false, g) ∷ rs) name h = here (ground (arith, h))

-- What Connect comes to over its results.
pub data AllOrNone (results : List (Bool × Member)) : Option Bytes × List Member → Type 0 where
  all_serve :
      {groups : List Member}
      → All (λ r. r.0 ≡ true) results
      → All IsServing groups
      → AllOrNone results (none, groups)
  none_serves :
      {name : Bytes} {groups : List Member}
      → FirstFailure name results
      → All IsGivenBack groups
      → map (λ g. g.closed) groups ≡ map (λ r. r.1.instances.conns) results
      → AllOrNone results (some name, groups)

serving :
    (rs : List (Bool × Member))
    → All IsResult rs
    → first_error rs ≡ none
    → All (λ r. r.0 ≡ true) rs × All IsServing (map start_maintain rs)
unfolding first_error start_maintain
serving [] vs e = (tt, tt)
serving ((false, g) ∷ rs) (v, vs) e = absurd (ground (arith, e))
serving ((true, g) ∷ rs) (v, vs) e =
    let (ok, all) = serving rs vs e in
    (
      (refl, ok),
      (
        record {
          connected = elim v.known [ inl (t, ne) ↦ ne | inr (f, n) ↦ absurd (ground (arith, f)) ];
          nothing_closed = v.closed_none;
          maintained_now = refl;
        },
        all,
      ),
    )

given_back : (r : Bool × Member) → IsResult r → IsGivenBack (give_back r)
unfolding give_back cleanup_member
given_back (true, g) v = record { none_left = refl; unmaintained = v.idle }
given_back (false, g) v = record {
  none_left = elim v.known [ inl (t, ne) ↦ absurd (ground (arith, t)) | inr (f, n) ↦ n ];
  unmaintained = v.idle;
}

given_back_closed : (r : Bool × Member) → IsResult r → (give_back r).closed ≡ r.1.instances.conns
unfolding give_back cleanup_member
given_back_closed (true, g) v = ap (λ c. c ++ g.instances.conns) v.closed_none
given_back_closed (false, g) v =
    v.closed_none ∙ elim v.known [ inl (t, ne) ↦ absurd (ground (arith, t)) | inr (f, n) ↦ sym n ]

giving_back :
    (rs : List (Bool × Member))
    → All IsResult rs
    → All IsGivenBack (map give_back rs)
      × (map (λ g. g.closed) (map give_back rs) ≡ map (λ r. r.1.instances.conns) rs)
giving_back [] vs = (tt, refl)
giving_back (r ∷ rs) (v, vs) =
    let (all, closed) = giving_back rs vs in
    (
      (given_back r v, all),
      ap (λ c. c ∷ map (λ g. g.closed) (map give_back rs)) (given_back_closed r v)
          ∙ ap (λ l. r.1.instances.conns ∷ l) closed,
    )

-- Connect of groups that have instances and no connections yet: without an error all groups have
-- connections and maintain runs for each; else the error is that of the first group to fail, no
-- group keeps a connection or has maintain running, and all that were established are closed.
pub pool_connect-AllOrNone :
    (arrivals : List Arrival)
    → All (λ a. IsFresh a.group) arrivals
    → AllOrNone (map connect_result arrivals) (pool_connect arrivals)
unfolding pool_connect connect_groups
pool_connect-AllOrNone arrivals fs =
    let rs = map connect_result arrivals in
    let vs = results-IsResult arrivals fs in
    elim (Option-cases (first_error rs)) [
      | inl e ↦
          let (ok, all) = serving rs vs e in
          subst (AllOrNone rs) {x = (none, map start_maintain rs)} (ground (arith, e))
            (all_serve ok all)
      | inr (name, e) ↦
          let (all, closed) = giving_back rs vs in
          subst (AllOrNone rs) {x = (some name, map give_back rs)} (ground (arith, e))
            (none_serves (first_error-FirstFailure rs name e) all closed)
    ]
