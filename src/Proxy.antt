-- ===== src/Proxy.antt =====
-- internal/proxy/server.go with run, buildRouter and onConfigReload of cmd/session-proxy/main.go:
-- the configuration, the router and the pool put together.
pub mod Reloads
pub mod Routed
use session_proxy.Prelude.{
  Bool, true, false, ◌&&◌, ◌||◌, not, List, [], ◌∷◌, Option, none, some, map, if◌then◌else◌,
}
use session_proxy.Prelude.Assoc.{lookup}
use session_proxy.Prelude.Bytes.{Bytes, bytes_discrete, is_nil, eq_bytes}
use session_proxy.Config.{Upstream, Upstreams, Login, ConfigRoute, Config, direct}
use session_proxy.Config.Options.{Options, Loaded, loaded, refused, to_config, reload}
use session_proxy.Router.{
  Resolver, Route, RouteConfig, Router, new_router, update_router, match_addr,
}
use session_proxy.Socks.Negotiation.{AuthConfig}

-- The conversion of one route, and of all.
abbrev pub route_of : ConfigRoute → Route
route_of r = record { pattern_text = r.pattern_text; upstream = r.upstream }

abbrev pub route_config : Config → RouteConfig
route_config c = record { routes = map route_of c.routes; default_upstream = c.default }

-- The authentication that NewRoutingServer sets up.
unfoldable pub socks_auth : Config → Option AuthConfig
socks_auth c = elim c.auth [
  | none ↦ none
  | some login ↦
      if not (is_nil login.user)
      then some (record { user = login.user; pass = login.pass })
      else none
]

-- Where the dialer of NewRoutingServer turns to; `unknown` is the error of Pool.Dial.
pub data Target : Type 0 where
  directly : Target
  through : Upstream → Target
  unknown : Bytes → Target

-- The router, and the groups of the pool by what they were made from.
pub record Proxy (Cidr : Type 0) : Type 0 where
  pub router : Router Cidr
  pub groups : Upstreams
  pub opt : Options

module _ {Cidr Ip : Type 0} (net : Resolver Cidr Ip) where
  -- The dialer of NewRoutingServer, with the lookup of Pool.Dial.
  unfoldable pub dial_target : Proxy Cidr → Bytes → Target
  dial_target p addr =
      let name = match_addr net p.router addr in
      if is_nil name || eq_bytes name direct
      then directly
      else elim (lookup bytes_discrete name p.groups) [ none ↦ unknown name | some up ↦ through up ]

  -- ToConfig, buildRouter and NewPool, as run calls them; none is log.Fatalf.
  unfoldable pub start_proxy : Options → Option (Proxy Cidr)
  start_proxy opt =
      let started = to_config opt in
      elim started.0 [
        | refused e ↦ none
        | loaded c ↦ elim (new_router net (route_config c)) [
          | none ↦ none
          | some r ↦ some (record { router = r; groups = c.upstreams; opt = started.1 })
        ]
      ]

  -- onConfigReload
  unfoldable pub on_config_reload : Config → Router Cidr → Router Cidr
  on_config_reload c r = (update_router net (route_config c) r).1

  -- The callback that run gives to Watch, for a change of the file that Parse makes `parsed` of.
  unfoldable pub on_change : Option Options → Proxy Cidr → Proxy Cidr
  unfolding on_config_reload
  on_change parsed p = elim (reload parsed p.opt) [
    | refused e ↦ p
    | loaded c ↦ record p { router = on_config_reload c p.router }
  ]

  unfoldable pub on_changes : List (Option Options) → Proxy Cidr → Proxy Cidr
  unfolding on_change
  on_changes [] p = p
  on_changes (parsed ∷ rest) p = on_changes rest (on_change parsed p)
