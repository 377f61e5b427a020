-- ===== src/Config/Validation.antt =====
-- What validate of internal/config/config.go accepts, and what it leaves behind.
use session_proxy.Prelude.{
  ℕ, suc, ◌≡◌, ◌≢◌, ◌↔◌, ◌⊎◌, inl, inr, refl, true, false, List, [], ◌∷◌, Option, none, some, arith,
  All, All-imp, if_both, Bool-cases,
}
use session_proxy.Prelude.Assoc.{lookup}
use session_proxy.Prelude.Bytes.{Bytes, is_nil, is_nil_iff, not_nil_iff, eq_bytes_iff}
use session_proxy.Config.{
  AwsConfig, Upstream, Upstreams, ConfigRoute, Config, ConfigError, direct, validate_aws_config,
  validate_upstream, validate_upstreams, has_upstream, check_default, check_route, first_of,
  check_routes, finish_validate, validate,
}

-- Credentials that stand together: a profile or none at all, or both keys with a region.
pub data AwsMode (a : AwsConfig) : Type 0 where
  by_profile : a.access_key ≡ [] → a.secret_key ≡ [] → AwsMode a
  by_keys : a.access_key ≢ [] → a.secret_key ≢ [] → a.profile ≡ [] → a.region ≢ [] → AwsMode a

abbrev pub IsUpstream : Bytes × Upstream → Type 0
IsUpstream e = (e.1.instances ≢ []) × AwsMode e.1.aws

validate_aws_config-AwsMode :
    (name : Bytes) (a : AwsConfig) → ((validate_aws_config name a).0 ≡ none) ↔ AwsMode a
unfolding validate_aws_config
validate_aws_config-AwsMode name a = (λ h. mode h (Bool-cases (is_nil a.access_key)), λ m. passes m)
  where
    mode :
        (validate_aws_config name a).0 ≡ none
        → (is_nil a.access_key ≡ true) ⊎ (is_nil a.access_key ≡ false)
        → AwsMode a
    mode h (inl e) =
        by_profile ((is_nil_iff a.access_key).0 e)
          ((is_nil_iff a.secret_key).0 (ground (arith, h, e)))
    mode h (inr e) =
        by_keys ((not_nil_iff a.access_key).0 e)
          ((not_nil_iff a.secret_key).0 (ground (arith, h, e)))
          ((is_nil_iff a.profile).0 (ground (arith, h, e)))
          ((not_nil_iff a.region).0 (ground (arith, h, e)))

    passes : AwsMode a → (validate_aws_config name a).0 ≡ none
    passes (by_profile x y) =
        ground (arith, (is_nil_iff a.access_key).1 x, (is_nil_iff a.secret_key).1 y)
    passes (by_keys x y p r) = ground (
      arith,
      (not_nil_iff a.access_key).1 x,
      (not_nil_iff a.secret_key).1 y,
      (is_nil_iff a.profile).1 p,
      (not_nil_iff a.region).1 r,
    )

validate_upstream-IsUpstream :
    (name : Bytes) (up : Upstream) → ((validate_upstream name up).0 ≡ none) ↔ IsUpstream (name, up)
unfolding validate_upstream
validate_upstream-IsUpstream name up = (
  λ h. (
    (not_nil_iff up.instances).0 (ground (arith, h)),
    (validate_aws_config-AwsMode name up.aws).0 (ground (arith, h)),
  ),
  λ (n, m).
      ground (arith, (not_nil_iff up.instances).1 n, (validate_aws_config-AwsMode name up.aws).1 m),
)

validate_upstreams-IsUpstream :
    (ups : Upstreams) → ((validate_upstreams ups).0 ≡ none) ↔ All IsUpstream ups
unfolding validate_upstreams
validate_upstreams-IsUpstream [] = (λ h. tt, λ h. refl)
validate_upstreams-IsUpstream ((name, up) ∷ ups) = (
  λ h. (
    (validate_upstream-IsUpstream name up).0 (ground (arith, h)),
    (validate_upstreams-IsUpstream ups).0 (ground (arith, h)),
  ),
  λ (u, us).
      ground (
        arith,
        (validate_upstream-IsUpstream name up).1 u,
        (validate_upstreams-IsUpstream ups).1 us,
      ),
)

-- The loop changes no name.
pub has_upstream-validate_upstreams :
    (name : Bytes) (ups : Upstreams)
    → has_upstream name (validate_upstreams ups).1 ≡ has_upstream name ups
unfolding has_upstream validate_upstreams lookup
has_upstream-validate_upstreams name [] = refl
has_upstream-validate_upstreams name ((k, up) ∷ ups) =
    ground (arith, has_upstream-validate_upstreams name ups)

-- A name that a default may have: none, DIRECT, or an upstream's.
abbrev pub IsKnown : Upstreams → Bytes → Type 0
IsKnown ups name = (name ≡ []) ⊎ (name ≡ direct) ⊎ (has_upstream name ups ≡ true)

abbrev pub IsRoute : Upstreams → ConfigRoute → Type 0
IsRoute ups r =
    (r.pattern_text ≢ []) × ((r.upstream ≡ direct) ⊎ (has_upstream r.upstream ups ≡ true))

check_default-IsKnown :
    (ups : Upstreams) (name : Bytes) → (check_default ups name ≡ none) ↔ IsKnown ups name
unfolding check_default
check_default-IsKnown ups name = ground (arith, is_nil_iff name, eq_bytes_iff name direct)

check_route-IsRoute :
    (ups : Upstreams) (i : ℕ) (r : ConfigRoute) → (check_route ups i r ≡ none) ↔ IsRoute ups r
unfolding check_route
check_route-IsRoute ups i r =
    ground (arith, not_nil_iff r.pattern_text, eq_bytes_iff r.upstream direct)

check_routes-IsRoute :
    (ups : Upstreams) (i : ℕ) (rs : List ConfigRoute)
    → (check_routes ups i rs ≡ none) ↔ All (IsRoute ups) rs
unfolding check_routes
check_routes-IsRoute ups i [] = (λ h. tt, λ h. refl)
check_routes-IsRoute ups i (r ∷ rs) = (
  λ h. (
    (check_route-IsRoute ups i r).0 (ground (arith, h)),
    (check_routes-IsRoute ups (suc i) rs).0 (ground (arith, h)),
  ),
  λ (u, us).
      ground (arith, (check_route-IsRoute ups i r).1 u, (check_routes-IsRoute ups (suc i) rs).1 us),
)

-- What validate asks for.
pub record IsAccepted (c : Config) : Type 0 where
  pub some_upstream : c.upstreams ≢ []
  pub each_upstream : All IsUpstream c.upstreams
  pub known_default : IsKnown c.upstreams c.default
  pub each_route : All (IsRoute c.upstreams) c.routes

IsKnown-validate_upstreams :
    (ups : Upstreams) (name : Bytes) → IsKnown (validate_upstreams ups).1 name ↔ IsKnown ups name
IsKnown-validate_upstreams ups name = rw (has_upstream-validate_upstreams name ups) (λ h. h, λ h. h)

IsRoute-validate_upstreams :
    (ups : Upstreams) (r : ConfigRoute) → IsRoute (validate_upstreams ups).1 r ↔ IsRoute ups r
IsRoute-validate_upstreams ups r =
    rw (has_upstream-validate_upstreams r.upstream ups) (λ h. h, λ h. h)

finish_validate-none :
    (e : Option ConfigError) (c : Config) → ((finish_validate e c).0 ≡ none) ↔ (e ≡ none)
unfolding finish_validate
finish_validate-none none c = (λ h. refl, λ h. refl)
finish_validate-none (some e) c = (λ h. h, λ h. h)

-- The errors of validate, where there are upstreams.
errors : Config → Option ConfigError
errors c =
    let ups = validate_upstreams c.upstreams in
    first_of ups.0 (first_of (check_default ups.1 c.default) (check_routes ups.1 0 c.routes))

validate-errors :
    (c : Config) → ((validate c).0 ≡ none) ↔ ((is_nil c.upstreams ≡ false) × (errors c ≡ none))
unfolding validate errors
validate-errors c =
    if_both {A = Option ConfigError × Config}
      (λ r. (r.0 ≡ none) ↔ ((is_nil c.upstreams ≡ false) × (errors c ≡ none))) (is_nil c.upstreams)
      _ _ (λ n. (λ h. ground (arith, h), λ (f, h). ground (arith, f, n)))
      λ n. (λ h. (n, (finish_validate-none _ _).0 h), λ (f, h). (finish_validate-none _ _).1 h)

errors-none :
    (c : Config)
    → (errors c ≡ none) ↔ (
        ((validate_upstreams c.upstreams).0 ≡ none)
        × (check_default (validate_upstreams c.upstreams).1 c.default ≡ none)
        × (check_routes (validate_upstreams c.upstreams).1 0 c.routes ≡ none))
unfolding errors
errors-none c = ground arith

-- A configuration is accepted exactly where it has an upstream, each upstream has an instance and
-- credentials that stand together, the default is none, DIRECT or an upstream, and each route has
-- a pattern and goes to DIRECT or an upstream.
pub validate-IsAccepted : (c : Config) → ((validate c).0 ≡ none) ↔ IsAccepted c
validate-IsAccepted c = (
  λ h.
      let (n, e) = (validate-errors c).0 h in
      let (u, d, r) = (errors-none c).0 e in
      record {
        some_upstream = (not_nil_iff c.upstreams).0 n;
        each_upstream = (validate_upstreams-IsUpstream c.upstreams).0 u;
        known_default =
            (IsKnown-validate_upstreams c.upstreams c.default).0
              ((check_default-IsKnown _ c.default).0 d);
        each_route =
            All-imp _ _ c.routes (λ x. (IsRoute-validate_upstreams c.upstreams x).0)
              ((check_routes-IsRoute _ 0 c.routes).0 r);
      },
  λ a. (validate-errors c).1 (
    (not_nil_iff c.upstreams).1 a.some_upstream,
    (errors-none c).1 (
      (validate_upstreams-IsUpstream c.upstreams).1 a.each_upstream,
      (check_default-IsKnown _ c.default).1
          ((IsKnown-validate_upstreams c.upstreams c.default).1 a.known_default),
      (check_routes-IsRoute _ 0 c.routes).1
          (All-imp _ _ c.routes (λ x. (IsRoute-validate_upstreams c.upstreams x).1) a.each_route),
    ),
  ),
)
