-- ===== src/Tests/Configs.antt =====
-- Configurations, their reload, and a proxy made from one.
use session_proxy.Prelude.{◌≡◌, ◌⊎◌, refl, false, [], ◌∷◌, some, none, ◌↔◌, All}
use session_proxy.Prelude.Assoc.{lookup, Distinct}
use session_proxy.Prelude.Bytes.{codes, bytes_discrete}
use session_proxy.Config.{Upstream, Config, validate, unknown_default, minute, upstreams_changed}
use session_proxy.Config.Validation.{IsAccepted, validate-IsAccepted}
use session_proxy.Config.Options.{
  Options, loaded, refused, outcome, to_config, config_of, kept, reload,
}
use session_proxy.Config.Options.Reload.{reload-same}
use session_proxy.Router.{Resolver, Rule, new_router, parse_rules, parse_rule, match_addr}
use session_proxy.Config.Defaults.{IsExplicit}
use session_proxy.Proxy.{Proxy, through, directly, start_proxy, on_changes, dial_target}
use session_proxy.Proxy.Reloads.{dial_target_known}

abbrev bastion : Upstream
bastion = record {
  ssh = record { user = []; key = [] };
  aws = record { profile = []; region = codes "eu-west-1"; access_key = []; secret_key = [] };
  instances = codes "i-1" ∷ codes "i-2" ∷ [];
}

abbrev options : Options
options = record {
  config_file = codes "config.yaml";
  debug = false;
  listen = [];
  diag_listen = [];
  auth = none;
  default = codes "DIRECT";
  sleep_detection_threshold = 0;
  upstreams = (codes "prod", bastion) ∷ [];
  routes = record { pattern_text = codes "*.corp"; upstream = codes "prod" } ∷ [];
  target = [];
  region = [];
  ssh_user = [];
  ssh_key = [];
  aws_profile = [];
}

accepted : (validate (config_of options)).0 ≡ none
unfolding validate bytes_discrete lookup
accepted = refl

refuses_unknown :
    (validate (record (config_of options) { default = codes "test" })).0
    ≡ some (unknown_default (codes "test"))
unfolding validate bytes_discrete lookup
refuses_unknown = refl

abbrev running_bastion : Upstream
running_bastion = record {
  ssh = record { user = codes "root"; key = [] };
  aws = record {
    profile = codes "default";
    region = codes "eu-west-1";
    access_key = [];
    secret_key = [];
  };
  instances = codes "i-1" ∷ codes "i-2" ∷ [];
}

abbrev running : Config
running = record {
  listen = codes "127.0.0.1:28881";
  diag_listen = [];
  auth = none;
  upstreams = (codes "prod", running_bastion) ∷ [];
  routes = options.routes;
  default = codes "DIRECT";
  sleep_detection_threshold = minute;
}

starts : (to_config options).0 ≡ loaded running
unfolding to_config validate outcome bytes_discrete lookup
starts = refl

options_keyed : Distinct bytes_discrete options.upstreams
unfolding lookup
options_keyed = (refl, tt)

validate-IsAccepted_example : ((validate running).0 ≡ none) ↔ IsAccepted running
validate-IsAccepted_example = validate-IsAccepted running

reload-same_example :
    (All IsExplicit options.upstreams
      → reload (some options) (to_config options).1
        ≡ (to_config (kept (to_config options).1 options)).0)
    × (¬ All IsExplicit options.upstreams
        → reload (some options) (to_config options).1 ≡ refused upstreams_changed)
reload-same_example = reload-same options options running refl options_keyed refl starts

abbrev any_host : Resolver Unit Unit
any_host = record {
  split_host_port = λ a. none;
  parse_ip = λ a. none;
  parse_cidr = λ a. none;
  in_cidr = λ c ip. false;
  to_lower = λ a. a;
  glob = λ p h. false;
}

abbrev corp : Rule Unit
corp = record { cidr = none; domain = codes "*.corp"; upstream = codes "prod" }

abbrev proxy : Proxy Unit
proxy = record {
  router = record { rules = corp ∷ []; default_name = codes "DIRECT" };
  groups = running.upstreams;
  opt = record options { upstreams = running.upstreams };
}

proxy_starts : start_proxy any_host options ≡ some proxy
unfolding start_proxy to_config validate outcome new_router parse_rules parse_rule bytes_discrete
    lookup
proxy_starts = refl

dial_target_known_example :
    (dial_target any_host (on_changes any_host (some options ∷ none ∷ []) proxy) (codes "db.corp")
      ≡ directly)
    ⊎ ((up : Upstream) × (lookup bytes_discrete
            (match_addr any_host
              (on_changes any_host (some options ∷ none ∷ []) proxy).router
              (codes "db.corp"))
            proxy.groups
          ≡ some up)
        × (dial_target any_host
              (on_changes any_host (some options ∷ none ∷ []) proxy)
              (codes "db.corp")
            ≡ through up))
dial_target_known_example =
    dial_target_known any_host options proxy (some options ∷ none ∷ []) (codes "db.corp")
      options_keyed (options_keyed, (tt, tt)) proxy_starts
