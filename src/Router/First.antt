-- ===== src/Router/First.antt =====
-- Match of internal/router/router.go against the routes of the configuration.
use session_proxy.Prelude.{
  ◌≡◌, refl, inl, inr, Bool, true, false, List, [], ◌∷◌, none, some, Bool-cases, Option-cases,
  arith, subst,
}
use session_proxy.Prelude.Bytes.{Bytes}
use session_proxy.Router.{
  Resolver, Route, RouteConfig, Rule, Router, has_byte, no_bytes, match_domain, parse_rule,
  parse_rules, new_router, accepts_ip, accepts_domain, first_accepted, host_of, match_addr,
}

-- The upstream of the first route for which P holds, and else a default.
pub data First (P : Route → Type 0) (default : Bytes) : List Route → Bytes → Type 0 where
  nowhere : First P default [] default
  here :
      {route : Route} {routes : List Route}
      → P route
      → First P default (route ∷ routes) route.upstream
  there :
      {route : Route} {routes : List Route} {name : Bytes}
      → ¬ P route
      → First P default routes name
      → First P default (route ∷ routes) name

module _ {Cidr Ip : Type 0} (net : Resolver Cidr Ip) where
  -- A route takes an IP by the network that it writes.
  pub record TakesIp (ip : Ip) (route : Route) : Type 0 where
    pub slash : has_byte b'/' route.pattern_text ≡ true
    pub network : Cidr
    pub parsed : net.parse_cidr route.pattern_text ≡ some network
    pub inside : net.in_cidr network ip ≡ true

  -- It takes another host by its pattern, in small letters, unless that is empty.
  pub record TakesDomain (host : Bytes) (route : Route) : Type 0 where
    pub no_slash : has_byte b'/' route.pattern_text ≡ false
    pub some_bytes : no_bytes (net.to_lower route.pattern_text) ≡ false
    pub matched : match_domain net (net.to_lower route.pattern_text) host ≡ true

  -- What a route takes, by what the address is.
  pub data Takes (addr : Bytes) (route : Route) : Type 0 where
    by_ip :
        (ip : Ip) → net.parse_ip (host_of net addr) ≡ some ip → TakesIp ip route → Takes addr route
    by_domain :
        net.parse_ip (host_of net addr) ≡ none
        → TakesDomain (net.to_lower (host_of net addr)) route
        → Takes addr route

  -- What parseRules makes of a route.
  data Parsed (route : Route) : Rule Cidr → Type 0 where
    network :
        (c : Cidr)
        → has_byte b'/' route.pattern_text ≡ true
        → net.parse_cidr route.pattern_text ≡ some c
        → Parsed route (record { cidr = some c; domain = []; upstream = route.upstream })
    pattern_of :
        has_byte b'/' route.pattern_text ≡ false
        → Parsed route (record {
          cidr = none;
          domain = net.to_lower route.pattern_text;
          upstream = route.upstream;
        })

  data ParsedAll : List Route → List (Rule Cidr) → Type 0 where
    parsed_none : ParsedAll [] []
    parsed_one :
        {route : Route} {rule : Rule Cidr} {routes : List Route} {rules : List (Rule Cidr)}
        → Parsed route rule
        → ParsedAll routes rules
        → ParsedAll (route ∷ routes) (rule ∷ rules)

  parse_rule-Parsed :
      (route : Route) (rule : Rule Cidr) → parse_rule net route ≡ some rule → Parsed route rule
  unfolding parse_rule
  parse_rule-Parsed route rule p = elim (Bool-cases (has_byte b'/' route.pattern_text)) [
    | inl s ↦ elim (Option-cases (net.parse_cidr route.pattern_text)) [
      | inl n ↦ ground (arith, s, n, p)
      | inr (c, e) ↦ subst (Parsed route) (ground (arith, s, e, p)) (network c s e)
    ]
    | inr s ↦ subst (Parsed route) (ground (arith, s, p)) (pattern_of s)
  ]

  parse_rules-ParsedAll :
      (routes : List Route) (rules : List (Rule Cidr))
      → parse_rules net routes ≡ some rules
      → ParsedAll routes rules
  unfolding parse_rules
  parse_rules-ParsedAll [] rules p = subst (ParsedAll []) (ground (arith, p)) parsed_none
  parse_rules-ParsedAll (route ∷ routes) rules p = elim (Option-cases (parse_rule net route)) [
    | inl n ↦ ground (arith, n, p)
    | inr (rule, e) ↦ elim (Option-cases (parse_rules net routes)) [
      | inl n ↦ ground (arith, e, n, p)
      | inr (rest, f) ↦
          subst (ParsedAll (route ∷ routes)) (ground (arith, e, f, p))
            (parsed_one (parse_rule-Parsed route rule e) (parse_rules-ParsedAll routes rest f))
    ]
  ]

  -- A test on rules that says of each what P says of its route.
  Decides : (Rule Cidr → Bool) → (Route → Type 0) → Type 0
  Decides test P =
      (route : Route) (rule : Rule Cidr)
      → Parsed route rule
      → (test rule ≡ true → P route) × (test rule ≡ false → ¬ P route)

  Parsed-upstream :
      (route : Route) (rule : Rule Cidr) → Parsed route rule → route.upstream ≡ rule.upstream
  Parsed-upstream route rule (network c s e) = refl
  Parsed-upstream route rule (pattern_of s) = refl

  first_accepted-First :
      (test : Rule Cidr → Bool) (P : Route → Type 0) (default : Bytes)
      → Decides test P
      → (routes : List Route) (rules : List (Rule Cidr)) → ParsedAll routes rules
      → First P default routes (first_accepted net test default rules)
  unfolding Decides first_accepted
  first_accepted-First test P default d [] [] parsed_none = nowhere
  first_accepted-First test P default d [] (rule ∷ rules) x = elim x [ ]
  first_accepted-First test P default d (route ∷ routes) [] x = elim x [ ]
  first_accepted-First test P default d (route ∷ routes) (rule ∷ rules) (parsed_one p ps) =
      elim (Bool-cases (test rule)) [
        | inl e ↦
            subst (First P default (route ∷ routes))
              (ground (arith, e, Parsed-upstream route rule p)) (here ((d route rule p).0 e))
        | inr e ↦
            subst (First P default (route ∷ routes)) (ground (arith, e))
              (there ((d route rule p).1 e) (first_accepted-First test P default d routes rules ps))
      ]

  module _ (addr : Bytes) where
    by_ip-absurd :
        (ip : Ip) (route : Route)
        → net.parse_ip (host_of net addr) ≡ some ip
        → ¬ TakesIp ip route
        → ¬ Takes addr route
    by_ip-absurd ip route e out (by_ip other f t) =
        out (subst (λ i. TakesIp i route) (ground (arith, e, f)) t)
    by_ip-absurd ip route e out (by_domain f t) = ground (arith, e, f)

    by_domain-absurd :
        (route : Route)
        → net.parse_ip (host_of net addr) ≡ none
        → ¬ TakesDomain (net.to_lower (host_of net addr)) route
        → ¬ Takes addr route
    by_domain-absurd route e out (by_ip other f t) = ground (arith, e, f)
    by_domain-absurd route e out (by_domain f t) = out t

    accepts_ip-Takes :
        (ip : Ip)
        → net.parse_ip (host_of net addr) ≡ some ip
        → Decides (accepts_ip net ip) (Takes addr)
    unfolding Decides accepts_ip
    accepts_ip-Takes ip e route _ (network c s f) = (
      λ h. by_ip ip e (record { slash = s; network = c; parsed = f; inside = h }),
      λ h. by_ip-absurd ip route e λ t. ground (arith, f, h, t.parsed, t.inside),
    )
    accepts_ip-Takes ip e route _ (pattern_of s) =
        (λ h. ground (arith, h), λ h. by_ip-absurd ip route e λ t. ground (arith, s, t.slash))

    accepts_domain-Takes :
        net.parse_ip (host_of net addr) ≡ none
        → Decides (accepts_domain net (net.to_lower (host_of net addr))) (Takes addr)
    unfolding Decides accepts_domain no_bytes
    accepts_domain-Takes e route _ (network c s f) =
        (λ h. ground (arith, h), λ h. by_domain-absurd route e λ t. ground (arith, s, t.no_slash))
    accepts_domain-Takes e route _ (pattern_of s) = (
      λ h.
          by_domain e
            (record { no_slash = s; some_bytes = ground (arith, h); matched = ground (arith, h) }),
      λ h. by_domain-absurd route e λ t. ground (arith, h, t.some_bytes, t.matched),
    )

  match_rules-First :
      (routes : List Route) (rules : List (Rule Cidr)) (default addr : Bytes)
      → ParsedAll routes rules
      → First
          (Takes addr)
          default
          routes
          (match_addr net (record { rules = rules; default_name = default }) addr)
  unfolding match_addr
  match_rules-First routes rules default addr p =
      elim (Option-cases (net.parse_ip (host_of net addr))) [
        | inl e ↦
            rw (e, match_addr)
              (first_accepted-First _ (Takes addr) default (accepts_domain-Takes addr e) routes
                rules p)
        | inr (ip, e) ↦
            rw (e, match_addr)
              (first_accepted-First _ (Takes addr) default (accepts_ip-Takes addr ip e) routes rules
                p)
      ]

  -- A router made from a configuration sends an address to the upstream of the first route that
  -- takes it: an IP to the first network that holds it, another host to the first pattern that it
  -- matches in small letters. Where no route does, it sends it to the default.
  pub match_addr-First :
      (cfg : RouteConfig) (r : Router Cidr)
      → new_router net cfg ≡ some r
      → (addr : Bytes) → First (Takes addr) cfg.default_upstream cfg.routes (match_addr net r addr)
  unfolding new_router
  match_addr-First cfg r e addr = elim (Option-cases (parse_rules net cfg.routes)) [
    | inl n ↦ ground (arith, n, e)
    | inr (rules, f) ↦
        subst
          (λ made. First (Takes addr) cfg.default_upstream cfg.routes (match_addr net made addr))
          (ground (arith, e, f))
          (match_rules-First cfg.routes rules cfg.default_upstream addr
            (parse_rules-ParsedAll cfg.routes rules f))
  ]
