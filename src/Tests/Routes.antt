-- ===== src/Tests/Routes.antt =====
-- A router with one network and one wildcard.
use session_proxy.Prelude.{
  ◌≡◌, refl, true, false, [], ◌∷◌, none, some, ◌==◌, ◌||◌, Option, if◌then◌else◌, ltb,
}
use session_proxy.Prelude.Bytes.{Byte, Bytes, bytes_discrete, codes}
use session_proxy.Router.{
  Resolver, Route, RouteConfig, Router, has_byte, parse_rule, parse_rules, new_router,
  update_router, match_addr,
}
use session_proxy.Router.First.{First, Takes, match_addr-First}
use session_proxy.Router.Wildcard.{update_router_invalid}

abbrev digit : Bytes → Option Byte
digit [] = none
digit (b ∷ bs) = if ltb 57 b || b == 63 then none else some b

-- Networks are told by their first byte, and `?` starts what is not parsed.
abbrev net : Resolver Byte Byte
net = record {
  split_host_port = λ a. none;
  parse_ip = digit;
  parse_cidr = digit;
  in_cidr = λ c ip. c == ip;
  to_lower = λ a. a;
  glob = λ p h. false;
}

abbrev ten_net : Route
ten_net = record { pattern_text = codes "1/8"; upstream = codes "east" }

abbrev dev : Route
dev = record { pattern_text = codes "*.dev"; upstream = codes "west" }

abbrev cfg : RouteConfig
cfg = record { routes = ten_net ∷ dev ∷ []; default_upstream = codes "DIRECT" }

abbrev made : Router Byte
made = record {
  rules =
      record { cidr = some 49; domain = []; upstream = codes "east" }
      ∷ record { cidr = none; domain = codes "*.dev"; upstream = codes "west" }
      ∷ [];
  default_name = codes "DIRECT";
}

route_config_parses : new_router net cfg ≡ some made
unfolding new_router parse_rules parse_rule has_byte
route_config_parses = refl

match_addr-First_example :
    First
      (Takes net (codes "db.dev"))
      (codes "DIRECT")
      cfg.routes
      (match_addr net made (codes "db.dev"))
match_addr-First_example = match_addr-First net cfg made route_config_parses (codes "db.dev")

abbrev bad : Route
bad = record { pattern_text = codes "?/8"; upstream = codes "north" }

bad_slash : has_byte b'/' bad.pattern_text ≡ true
unfolding has_byte
bad_slash = refl

invalid_kept :
    update_router net
      (record { routes = ten_net ∷ bad ∷ dev ∷ []; default_upstream = codes "north" })
      made
    ≡ (false, made)
invalid_kept =
    update_router_invalid net (ten_net ∷ []) (dev ∷ []) bad (codes "north") made bad_slash refl

-- The host goes to the upstream of the wildcard.
dev_host : match_addr net made (codes "db.dev") ≡ codes "west"
unfolding match_addr bytes_discrete
dev_host = refl
