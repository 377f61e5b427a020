-- ===== src/Proxy/Routed.antt =====
-- That a router has only known names, over NewRouter and UpdateRouter of internal/router/router.go
-- as cmd/session-proxy/main.go calls them.
use session_proxy.Prelude.{
  ◌≡◌, inl, inr, sym, subst, Bool, List, [], ◌∷◌, some, map, arith, All, All-cons, Option-cases,
}
use session_proxy.Prelude.Bytes.{Bytes}
use session_proxy.Config.{Upstreams, ConfigRoute, Config}
use session_proxy.Config.Validation.{IsKnown}
use session_proxy.Router.{
  Resolver, Route, Rule, Router, parse_rule, parse_rules, new_router, update_router, match_addr,
  first_accepted, host_of,
}
use session_proxy.Proxy.{route_of, route_config, on_config_reload}

module _ {Cidr Ip : Type 0} (net : Resolver Cidr Ip) where
  -- Every name in the router is known.
  pub record IsRouted (ups : Upstreams) (r : Router Cidr) : Type 0 where
    pub default_known : IsKnown ups r.default_name
    pub rules_known : All (λ rule. IsKnown ups rule.upstream) r.rules

  parse_rule-upstream :
      (route : Route) (rule : Rule Cidr)
      → parse_rule net route ≡ some rule
      → rule.upstream ≡ route.upstream
  unfolding parse_rule
  parse_rule-upstream route rule h = ground (arith, h)

  nothing-IsKnown :
      (ups : Upstreams) (rules : List (Rule Cidr))
      → rules ≡ []
      → All (λ rule. IsKnown ups rule.upstream) rules
  nothing-IsKnown ups [] h = tt
  nothing-IsKnown ups (rule ∷ rules) h = absurd (ground (arith, h))

  parse_rules-IsKnown :
      (ups : Upstreams) (routes : List ConfigRoute) (rules : List (Rule Cidr))
      → parse_rules net (map route_of routes) ≡ some rules
      → All (λ r. IsKnown ups r.upstream) routes
      → All (λ rule. IsKnown ups rule.upstream) rules
  unfolding parse_rules
  parse_rules-IsKnown ups [] rules h k = nothing-IsKnown ups rules (ground (arith, h))
  parse_rules-IsKnown ups (route ∷ routes) rules h k =
      elim (Option-cases (parse_rule net (route_of route))) [
        | inl n ↦ absurd (ground (arith, n, h))
        | inr (rule, e) ↦ elim (Option-cases (parse_rules net (map route_of routes))) [
          | inl n ↦ absurd (ground (arith, e, n, h))
          | inr (rest, f) ↦
              All-cons (λ x. IsKnown ups x.upstream) rule rest rules (ground (arith, e, f, h))
                (subst (IsKnown ups) (sym (parse_rule-upstream (route_of route) rule e)) k.0)
                (parse_rules-IsKnown ups routes rest f k.1)
        ]
      ]

  first_accepted-IsKnown :
      (ups : Upstreams) (test : Rule Cidr → Bool) (default : Bytes) (rules : List (Rule Cidr))
      → IsKnown ups default
      → All (λ rule. IsKnown ups rule.upstream) rules
      → IsKnown ups (first_accepted net test default rules)
  unfolding first_accepted
  first_accepted-IsKnown ups test default [] d k = d
  first_accepted-IsKnown ups test default (rule ∷ rules) d k =
      ground (arith, first_accepted-IsKnown ups test default rules d k.1, k.0)

  pub match_addr-IsKnown :
      (ups : Upstreams) (r : Router Cidr) (addr : Bytes)
      → IsRouted ups r
      → IsKnown ups (match_addr net r addr)
  unfolding match_addr
  match_addr-IsKnown ups r addr k = elim (Option-cases (net.parse_ip (host_of net addr))) [
    | inl e ↦
        rw (e, match_addr)
          (first_accepted-IsKnown ups _ r.default_name r.rules k.default_known k.rules_known)
    | inr (ip, e) ↦
        rw (e, match_addr)
          (first_accepted-IsKnown ups _ r.default_name r.rules k.default_known k.rules_known)
  ]

  pub new_router-IsRouted :
      (ups : Upstreams) (c : Config) (r : Router Cidr)
      → new_router net (route_config c) ≡ some r
      → IsKnown ups c.default
      → All (λ x. IsKnown ups x.upstream) c.routes
      → IsRouted ups r
  unfolding new_router
  new_router-IsRouted ups c r h d k =
      elim (Option-cases (parse_rules net (map route_of c.routes))) [
        | inl n ↦ absurd (ground (arith, n, h))
        | inr (rules, e) ↦
            subst (IsRouted ups) {x = record { rules = rules; default_name = c.default }}
              (ground (arith, e, h))
              (record {
                default_known = d;
                rules_known = parse_rules-IsKnown ups c.routes rules e k;
              })
      ]

  pub on_config_reload-IsRouted :
      (ups : Upstreams) (c : Config) (r : Router Cidr)
      → IsKnown ups c.default
      → All (λ x. IsKnown ups x.upstream) c.routes
      → IsRouted ups r
      → IsRouted ups (on_config_reload net c r)
  unfolding on_config_reload update_router
  on_config_reload-IsRouted ups c r d k i =
      elim (Option-cases (parse_rules net (map route_of c.routes))) [
        | inl n ↦ rw (n, on_config_reload) i
        | inr (rules, e) ↦
            rw (e, on_config_reload)
              (record {
                default_known = d;
                rules_known = parse_rules-IsKnown ups c.routes rules e k;
              })
      ]
