-- ===== src/Config/Options/Start.antt =====
-- ToConfig of internal/config/options.go: what a configuration that it returns holds.
use session_proxy.Prelude.{
  ◌≡◌, ◌≢◌, ◌⊎◌, inl, inr, refl, sym, subst, false, [], ◌∷◌, Option, none, some, arith, All,
  All-imp, Bool-cases,
}
use session_proxy.Prelude.Assoc.{Distinct}
use session_proxy.Prelude.Bytes.{Bytes, codes, bytes_discrete, is_nil, is_nil_iff, not_nil_iff}
use session_proxy.Config.{
  Upstreams, Config, ConfigError, has_upstream, validate_upstreams, validate, finish_validate,
  fill_defaults, first_of, check_default, check_routes,
}
use session_proxy.Config.Validation.{IsKnown, validate-IsAccepted, has_upstream-validate_upstreams}
use session_proxy.Config.Options.{
  Options, Loaded, loaded, refused, outcome, to_config, to_legacy_config, config_of,
  legacy_config_of, legacy_upstream,
}

finish_upstreams :
    (e : Option ConfigError) (c : Config) → (finish_validate e c).1.upstreams ≡ c.upstreams
unfolding finish_validate fill_defaults
finish_upstreams none c = refl
finish_upstreams (some e) c = refl

finish_loaded :
    (e : Option ConfigError) (c d : Config) → outcome (finish_validate e c) ≡ loaded d → e ≡ none
unfolding outcome finish_validate
finish_loaded none c d h = refl
finish_loaded (some e) c d h = ground (arith, h)

first_none : (e f : Option ConfigError) → first_of e f ≡ none → e ≡ none
first_none none f h = refl
first_none (some e) f h = ground (arith, h)

-- The errors of validate, where there are upstreams.
abbrev errors_of : Config → Option ConfigError
errors_of c = first_of (validate_upstreams c.upstreams).0 (
    first_of (check_default (validate_upstreams c.upstreams).1 c.default)
      (check_routes (validate_upstreams c.upstreams).1 0 c.routes))

validate_some :
    (c : Config)
    → is_nil c.upstreams ≡ false
    → validate c
      ≡ finish_validate (errors_of c) (record c { upstreams = (validate_upstreams c.upstreams).1 })
unfolding validate
validate_some c n = ground (arith, n)

-- What the start leaves in the options.
pub started :
    (opt : Options) (c : Config)
    → is_nil opt.upstreams ≡ false
    → (to_config opt).0 ≡ loaded c
    → (to_config opt).1.upstreams ≡ (validate_upstreams opt.upstreams).1
      × (validate_upstreams opt.upstreams).0 ≡ none
unfolding to_config
started opt c n h =
    let v = validate_some (config_of opt) n in
    (
      ground (
        arith,
        n,
        v,
        finish_upstreams (errors_of (config_of opt))
            (record (config_of opt) { upstreams = (validate_upstreams opt.upstreams).1 }),
      ),
      first_none _ _ (
          finish_loaded (errors_of (config_of opt))
            (record (config_of opt) { upstreams = (validate_upstreams opt.upstreams).1 }) c
            (subst (λ x. outcome x ≡ loaded c) v (ground (arith, n, h)))),
    )

-- An outcome is what was validated, with its errors away.
pub outcome_loaded :
    (r : Option ConfigError × Config) (c : Config) → outcome r ≡ loaded c → (r.0 ≡ none) × (r.1 ≡ c)
unfolding outcome
outcome_loaded (none, d) c h = (refl, ground (arith, h))
outcome_loaded (some e, d) c h = absurd (ground (arith, h))

-- Every name that a configuration routes to is known, and its upstreams have the names of others.
pub record IsServed (ups : Upstreams) (c : Config) : Type 0 where
  pub default_known : IsKnown c.upstreams c.default
  pub routes_known : All (λ r. IsKnown c.upstreams r.upstream) c.routes
  pub same_names : (name : Bytes) → has_upstream name c.upstreams ≡ has_upstream name ups

finish_validate-IsServed :
    (ups : Upstreams) (e : Option ConfigError) (c : Config)
    → IsServed ups c
    → IsServed ups (finish_validate e c).1
unfolding finish_validate fill_defaults
finish_validate-IsServed ups none c s = record {
  default_known = s.default_known;
  routes_known = s.routes_known;
  same_names = s.same_names;
}
finish_validate-IsServed ups (some e) c s = s

IsKnown-validate :
    (ups : Upstreams) (name : Bytes) → IsKnown ups name → IsKnown (validate_upstreams ups).1 name
IsKnown-validate ups name k = rw (has_upstream-validate_upstreams name ups) k

pub validate-IsServed : (b c : Config) → outcome (validate b) ≡ loaded c → IsServed b.upstreams c
validate-IsServed b c h =
    let (e, q) = outcome_loaded (validate b) c h in
    let a = (validate-IsAccepted b).0 e in
    subst (IsServed b.upstreams) q (
      subst (λ r. IsServed b.upstreams r.1)
        (sym (validate_some b ((not_nil_iff b.upstreams).1 a.some_upstream)))
        (finish_validate-IsServed b.upstreams _ _ (record {
          default_known = IsKnown-validate b.upstreams b.default a.known_default;
          routes_known =
              All-imp _ _ b.routes (λ r k. IsKnown-validate b.upstreams r.upstream (inr k.1))
                a.each_route;
          same_names = λ name. has_upstream-validate_upstreams name b.upstreams;
        })))

-- The legacy mode, or else a configuration of the given upstreams.
pub data Mode (opt : Options) (c : Config) : Type 0 where
  legacy :
      opt.upstreams ≡ []
      → (to_config opt).1.upstreams ≡ []
      → IsServed ((codes "default", legacy_upstream opt) ∷ []) c
      → Mode opt c
  routing :
      opt.upstreams ≢ []
      → (to_config opt).1.upstreams ≡ (validate_upstreams opt.upstreams).1
      → IsServed opt.upstreams c
      → Mode opt c

pub to_config-Mode : (opt : Options) (c : Config) → (to_config opt).0 ≡ loaded c → Mode opt c
unfolding to_config to_legacy_config
to_config-Mode opt c h = elim (Bool-cases (is_nil opt.upstreams)) [
  | inr n ↦
      routing ((not_nil_iff opt.upstreams).0 n) (started opt c n h).0
        (validate-IsServed (config_of opt) c (ground (arith, n, h)))
  | inl n ↦ elim (Bool-cases (is_nil opt.target)) [
    | inl t ↦
        (let (e, q) = outcome_loaded (validate (config_of opt)) c (ground (arith, t, h)) in
          let a = (validate-IsAccepted (config_of opt)).0 e in
          absurd (a.some_upstream ((is_nil_iff opt.upstreams).0 n)))
    | inr t ↦
        legacy ((is_nil_iff opt.upstreams).0 n)
          (ground (arith, n, t, (is_nil_iff opt.upstreams).0 n))
          (validate-IsServed (legacy_config_of opt) c (ground (arith, n, t, h)))
  ]
]

pub Loaded-cases :
    (l : Loaded) → ((e : ConfigError) × (l ≡ refused e)) ⊎ ((c : Config) × (l ≡ loaded c))
Loaded-cases (refused e) = inl (e, refl)
Loaded-cases (loaded c) = inr (c, refl)

pub validate_upstreams_nil : (ups : Upstreams) → (validate_upstreams ups).1 ≡ [] → ups ≡ []
unfolding validate_upstreams
validate_upstreams_nil [] h = refl
validate_upstreams_nil ((name, up) ∷ ups) h = absurd (ground (arith, h))

pub validate_upstreams-Distinct :
    (ups : Upstreams)
    → Distinct bytes_discrete ups
    → Distinct bytes_discrete (validate_upstreams ups).1
unfolding validate_upstreams has_upstream
validate_upstreams-Distinct [] d = tt
validate_upstreams-Distinct ((name, up) ∷ ups) d =
    ground (arith, d, has_upstream-validate_upstreams name ups, validate_upstreams-Distinct ups d.1)
