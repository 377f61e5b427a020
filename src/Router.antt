-- ===== src/Router.antt =====
-- internal/router/router.go: which upstream an address goes to.
pub mod First
pub mod Wildcard
use session_proxy.Prelude.{
  ℕ, ◌-◌, ◌≡◌, Bool, true, false, ◌&&◌, ◌||◌, not, List, [], ◌∷◌, Option, none, some, ◌==◌, leb,
  if◌then◌else◌, length, take, drop, ite,
}
use session_proxy.Prelude.Bytes.{Byte, Bytes, bytes_discrete}

-- package net, strings.ToLower and filepath.Match, whose error counts as no match.
pub record Resolver (Cidr Ip : Type 0) : Type 0 where
  pub split_host_port : Bytes → Option Bytes
  pub parse_ip : Bytes → Option Ip
  pub parse_cidr : Bytes → Option Cidr
  pub in_cidr : Cidr → Ip → Bool
  pub to_lower : Bytes → Bytes
  pub glob : Bytes → Bytes → Bool

pub record Route : Type 0 where
  pub pattern_text : Bytes
  pub upstream : Bytes

pub record RouteConfig : Type 0 where
  pub routes : List Route
  pub default_upstream : Bytes

-- A nil cidr is none.
pub record Rule (Cidr : Type 0) : Type 0 where
  pub cidr : Option Cidr
  pub domain : Bytes
  pub upstream : Bytes

pub record Router (Cidr : Type 0) : Type 0 where
  pub rules : List (Rule Cidr)
  pub default_name : Bytes

-- strings.Contains for one byte
unfoldable pub has_byte : Byte → Bytes → Bool
has_byte b [] = false
has_byte b (c ∷ cs) = c == b || has_byte b cs

-- strings.HasPrefix and strings.HasSuffix
same_bytes : Bytes → Bytes → Bool
same_bytes a b = ite (bytes_discrete a b) true false

unfoldable pub has_prefix : Bytes → Bytes → Bool
unfolding same_bytes
has_prefix s prefix = leb (length prefix) (length s) && same_bytes (take (length prefix) s) prefix

unfoldable pub has_suffix : Bytes → Bytes → Bool
unfolding same_bytes
has_suffix s suffix =
    leb (length suffix) (length s) && same_bytes (drop (length s - length suffix) s) suffix

unfoldable pub no_bytes : Bytes → Bool
no_bytes [] = true
no_bytes (b ∷ bs) = false

module _ {Cidr Ip : Type 0} (net : Resolver Cidr Ip) where
  -- matchDomain
  unfoldable pub match_domain : Bytes → Bytes → Bool
  unfolding has_prefix has_suffix
  match_domain pattern host =
      if has_prefix pattern (b'*' ∷ b'.' ∷ [])
      then has_suffix host (drop 1 pattern)
      else net.glob pattern host

  -- One round of the loop of parseRules.
  unfoldable pub parse_rule : Route → Option (Rule Cidr)
  unfolding has_byte
  parse_rule route =
      if has_byte b'/' route.pattern_text
      then elim (net.parse_cidr route.pattern_text) [
        | none ↦ none
        | some c ↦ some (record { cidr = some c; domain = []; upstream = route.upstream })
      ]
      else some (record {
        cidr = none;
        domain = net.to_lower route.pattern_text;
        upstream = route.upstream;
      })

  -- parseRules; none is the error about an invalid CIDR.
  unfoldable pub parse_rules : List Route → Option (List (Rule Cidr))
  parse_rules [] = some []
  parse_rules (route ∷ routes) =
      let rest = parse_rules routes in
      elim (parse_rule route) [
        | none ↦ none
        | some rule ↦ elim rest [ none ↦ none | some rules ↦ some (rule ∷ rules) ]
      ]

  -- New
  unfoldable pub new_router : RouteConfig → Option (Router Cidr)
  new_router cfg = elim (parse_rules cfg.routes) [
    | none ↦ none
    | some rules ↦ some (record { rules = rules; default_name = cfg.default_upstream })
  ]

  -- Update, which says whether it succeeded.
  unfoldable pub update_router : RouteConfig → Router Cidr → Bool × Router Cidr
  update_router cfg r = elim (parse_rules cfg.routes) [
    | none ↦ (false, r)
    | some rules ↦ (true, record { rules = rules; default_name = cfg.default_upstream })
  ]

  -- The tests of the two loops of Match.
  unfoldable pub accepts_ip : Ip → Rule Cidr → Bool
  accepts_ip ip rule = elim rule.cidr [ none ↦ false | some c ↦ net.in_cidr c ip ]

  unfoldable pub accepts_domain : Bytes → Rule Cidr → Bool
  unfolding no_bytes match_domain
  accepts_domain host rule = not (no_bytes rule.domain) && match_domain rule.domain host

  -- The upstream of the first rule that the test accepts.
  unfoldable pub first_accepted : (Rule Cidr → Bool) → Bytes → List (Rule Cidr) → Bytes
  first_accepted test default [] = default
  first_accepted test default (rule ∷ rules) =
      let rest = first_accepted test default rules in if test rule then rule.upstream else rest

  unfoldable pub host_of : Bytes → Bytes
  host_of addr = elim (net.split_host_port addr) [ none ↦ addr | some host ↦ host ]

  -- Match
  unfoldable pub match_addr : Router Cidr → Bytes → Bytes
  unfolding host_of first_accepted accepts_ip accepts_domain
  match_addr r addr = elim (net.parse_ip (host_of addr)) [
    | none ↦ first_accepted (accepts_domain (net.to_lower (host_of addr))) r.default_name r.rules
    | some ip ↦ first_accepted (accepts_ip ip) r.default_name r.rules
  ]
