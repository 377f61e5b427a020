-- ===== src/Config/Options/Reload.antt =====
-- reload of internal/config/options.go against the running options.
use session_proxy.Prelude.{
  ◌≡◌, ◌↔◌, inl, inr, refl, sym, subst, ◌∙◌, true, false, List, [], ◌∷◌, none, some, arith, All,
  All-imp, length, Option-cases,
}
use session_proxy.Prelude.Assoc.{lookup, Distinct}
use session_proxy.Prelude.Bytes.{Bytes, bytes_discrete, is_nil, eq_bytes_iff}
use session_proxy.Config.{
  Upstream, Upstreams, Config, validate_upstream, validate_upstreams, upstreams_changed,
}
use session_proxy.Config.Defaults.{
  IsExplicit, validate_upstreams_explicit, validate_upstreams-IsExplicit,
}
use session_proxy.Config.Options.Start.{started}
use session_proxy.Config.Options.{
  Options, loaded, refused, same_instances, upstreams_equal, each_unchanged, upstreams_unchanged,
  to_config, kept, reload,
}

same_instances-eq :
    (xs ys : List Bytes) → length xs ≡ length ys → (same_instances xs ys ≡ true) ↔ (xs ≡ ys)
unfolding same_instances
same_instances-eq [] [] h = (λ e. refl, λ e. refl)
same_instances-eq [] (y ∷ ys) h = absurd (omega arith)
same_instances-eq (x ∷ xs) [] h = absurd (omega arith)
same_instances-eq (x ∷ xs) (y ∷ ys) h = ground (arith, eq_bytes_iff x y, same_instances-eq xs ys)

upstreams_equal-eq : (a b : Upstream) → (upstreams_equal a b ≡ true) ↔ (a ≡ b)
unfolding upstreams_equal
upstreams_equal-eq a b = ground (
  arith,
  eq_bytes_iff a.ssh.user b.ssh.user,
  eq_bytes_iff a.ssh.key b.ssh.key,
  eq_bytes_iff a.aws.profile b.aws.profile,
  eq_bytes_iff a.aws.region b.aws.region,
  eq_bytes_iff a.aws.access_key b.aws.access_key,
  eq_bytes_iff a.aws.secret_key b.aws.secret_key,
  same_instances-eq a.instances b.instances,
)

-- Each entry is found under its name.
FoundIn : Upstreams → Bytes × Upstream → Type 0
FoundIn all e = lookup bytes_discrete e.0 all ≡ some e.1

Distinct-FoundIn : (ups : Upstreams) → Distinct bytes_discrete ups → All (FoundIn ups) ups
unfolding FoundIn lookup
Distinct-FoundIn [] d = tt
Distinct-FoundIn ((name, up) ∷ ups) d =
    (ground arith, All-imp _ _ ups (λ e f. ground (arith, d.0, f)) (Distinct-FoundIn ups d.1))

each_unchanged-eq : (old new : Upstreams) → (each_unchanged old new ≡ true) ↔ All (FoundIn new) old
unfolding each_unchanged FoundIn
each_unchanged-eq [] new = (λ h. tt, λ h. refl)
each_unchanged-eq ((name, up) ∷ old) new = elim (Option-cases (lookup bytes_discrete name new)) [
  | inl n ↦ ground (arith, n)
  | inr (other, e) ↦ ground (arith, e, upstreams_equal-eq up other, each_unchanged-eq old new)
]

length-validate_upstreams : (ups : Upstreams) → length (validate_upstreams ups).1 ≡ length ups
unfolding validate_upstreams
length-validate_upstreams [] = refl
length-validate_upstreams ((name, up) ∷ ups) = ground (arith, length-validate_upstreams ups)

step-validate_upstreams :
    (name : Bytes) (up : Upstream) (ups : Upstreams)
    → (validate_upstream name up).0 ≡ none
    → (validate_upstreams ((name, up) ∷ ups)).0 ≡ (validate_upstreams ups).0
      × (validate_upstreams ((name, up) ∷ ups)).1
        ≡ (name, (validate_upstream name up).1) ∷ (validate_upstreams ups).1
unfolding validate_upstreams
step-validate_upstreams name up ups e = (ground (arith, e), ground (arith, e))

-- Where validation leaves every value that is found, it leaves the list.
validate_upstreams_found :
    (ups all : Upstreams)
    → (validate_upstreams ups).0 ≡ none
    → All (FoundIn all) ups
    → All (FoundIn all) (validate_upstreams ups).1
    → (validate_upstreams ups).1 ≡ ups
unfolding validate_upstreams FoundIn
validate_upstreams_found [] all h f g = refl
validate_upstreams_found ((name, up) ∷ ups) all h f g =
    elim (Option-cases (validate_upstream name up).0) [
      | inl e ↦
          at (step-validate_upstreams name up ups e)
            (λ s k. validate_upstreams_found ups all (sym s ∙ h) f.1 k)
      | inr (err, e) ↦ ground (arith, e, h)
    ]
  where
    at :
        (validate_upstreams ((name, up) ∷ ups)).0 ≡ (validate_upstreams ups).0
          × (validate_upstreams ((name, up) ∷ ups)).1
            ≡ (name, (validate_upstream name up).1) ∷ (validate_upstreams ups).1
        → ((validate_upstreams ((name, up) ∷ ups)).0 ≡ (validate_upstreams ups).0
            → All (FoundIn all) (validate_upstreams ups).1
            → (validate_upstreams ups).1 ≡ ups)
        → (validate_upstreams ((name, up) ∷ ups)).1 ≡ (name, up) ∷ ups
    at (s, q) tail = both (subst (All (FoundIn all)) q g)
      where
        both :
            All (FoundIn all) ((name, (validate_upstream name up).1) ∷ (validate_upstreams ups).1)
            → (validate_upstreams ((name, up) ∷ ups)).1 ≡ (name, up) ∷ ups
        both (k, ks) = q ∙ ground (arith, k, f.0, tail s ks)

unchanged-IsExplicit :
    (ups : Upstreams)
    → Distinct bytes_discrete ups
    → (validate_upstreams ups).0 ≡ none
    → (upstreams_unchanged (validate_upstreams ups).1 ups ≡ true) ↔ All IsExplicit ups
unfolding upstreams_unchanged
unchanged-IsExplicit ups d h = (
  λ e.
      subst (All IsExplicit)
        (validate_upstreams_found ups ups h (Distinct-FoundIn ups d)
          ((each_unchanged-eq _ ups).0 (ground (arith, e, length-validate_upstreams ups))))
        (validate_upstreams-IsExplicit ups h),
  λ x.
      rw (validate_upstreams_explicit ups x)
        (ground (arith, (each_unchanged-eq ups ups).1 (Distinct-FoundIn ups d))),
)

-- A reload of a file with the same upstreams, after the start.
pub reload-same :
    (opt new : Options) (c : Config)
    → is_nil opt.upstreams ≡ false
    → Distinct bytes_discrete opt.upstreams
    → new.upstreams ≡ opt.upstreams
    → (to_config opt).0 ≡ loaded c
    → (All IsExplicit opt.upstreams
        → reload (some new) (to_config opt).1 ≡ (to_config (kept (to_config opt).1 new)).0)
      × (¬ All IsExplicit opt.upstreams
          → reload (some new) (to_config opt).1 ≡ refused upstreams_changed)
unfolding reload
reload-same opt new c k d n h =
    let (e, v) = started opt c k h in
    let same = unchanged-IsExplicit opt.upstreams d v in
    (λ x. ground (arith, e, n, same, x), λ x. ground (arith, e, n, same, x))
