-- ===== src/Router/Wildcard.antt =====
-- matchDomain and Update of internal/router/router.go.
use session_proxy.Prelude.{
  ◌≡◌, ◌↔◌, refl, sym, ◌∙◌, true, false, List, [], ◌∷◌, ◌++◌, none, arith, length, take, ◌-◌,
  take-append-drop, drop-append, length-append,
}
use session_proxy.Prelude.Bytes.{Bytes}
use session_proxy.Router.{
  Resolver, Route, Router, has_prefix, has_suffix, match_domain, parse_rules, has_byte, same_bytes,
  update_router, parse_rule,
}

has_suffix-append : (xs suffix : Bytes) → has_suffix (xs ++ suffix) suffix ≡ true
unfolding has_suffix
has_suffix-append xs suffix =
    ground (arith, length-append xs suffix, drop-append (length xs) xs suffix refl)

has_suffix-split :
    (s suffix : Bytes) → has_suffix s suffix ≡ true → (xs : Bytes) × (s ≡ xs ++ suffix)
unfolding has_suffix
has_suffix-split s suffix h = (
  take (length s - length suffix) s,
  ground (arith, h, take-append-drop (length s - length suffix) s),
)

module _ {Cidr Ip : Type 0} (net : Resolver Cidr Ip) where
  match_domain-has_suffix :
      (domain host : Bytes)
      → match_domain net (b'*' ∷ b'.' ∷ domain) host ≡ has_suffix host (b'.' ∷ domain)
  unfolding match_domain has_prefix same_bytes
  match_domain-has_suffix domain host = ground arith

  -- A pattern that starts with `*.` matches exactly the hosts that end in what follows its star:
  -- those below the domain at any depth, not the domain itself.
  match_domain_wildcard :
      (domain host : Bytes)
      → (match_domain net (b'*' ∷ b'.' ∷ domain) host ≡ true)
        ↔ ((label : Bytes) × (host ≡ label ++ (b'.' ∷ domain)))
  match_domain_wildcard domain host = (
    λ h. has_suffix-split host (b'.' ∷ domain) (sym (match_domain-has_suffix domain host) ∙ h),
    λ (label, e).
        match_domain-has_suffix domain host ∙ rw (e) (has_suffix-append label (b'.' ∷ domain)),
  )

  parse_rules_invalid :
      (before after : List Route) (bad : Route)
      → has_byte b'/' bad.pattern_text ≡ true
      → net.parse_cidr bad.pattern_text ≡ none
      → parse_rules net (before ++ (bad ∷ after)) ≡ none
  unfolding parse_rules parse_rule
  parse_rules_invalid [] after bad s n = ground (arith, s, n)
  parse_rules_invalid (route ∷ before) after bad s n =
      ground (arith, parse_rules_invalid before after bad s n)

  -- A configuration with an invalid network anywhere is refused whole: Update leaves the router as
  -- it was.
  pub update_router_invalid :
      (before after : List Route) (bad : Route) (default : Bytes) (r : Router Cidr)
      → has_byte b'/' bad.pattern_text ≡ true
      → net.parse_cidr bad.pattern_text ≡ none
      → update_router net
          (record { routes = before ++ (bad ∷ after); default_upstream = default })
          r
        ≡ (false, r)
  unfolding update_router
  update_router_invalid before after bad default r s n =
      rw (parse_rules_invalid before after bad s n, update_router) refl
