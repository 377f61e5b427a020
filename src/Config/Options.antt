-- ===== src/Config/Options.antt =====
-- internal/config/options.go behind its parsing: ToConfig with its legacy mode, and the reload of
-- a changed file. What viper makes of flags, variables and the file is an Options.
pub mod Start
pub mod Reload
pub mod Names
use session_proxy.Prelude.{
  ℕ, Bool, true, false, ◌&&◌, not, List, [], ◌∷◌, Option, none, some, if◌then◌else◌, ◌==◌, length,
}
use session_proxy.Prelude.Assoc.{lookup}
use session_proxy.Prelude.Bytes.{Bytes, codes, bytes_discrete, is_nil, eq_bytes}
use session_proxy.Prelude.Int64.{Int64}
use session_proxy.Config.{
  Upstream, Upstreams, Login, ConfigRoute, Config, ConfigError, target_required, reload_failed,
  upstreams_changed, validate,
}

pub record Options : Type 0 where
  pub config_file : Bytes
  pub debug : Bool
  pub listen : Bytes
  pub diag_listen : Bytes
  pub auth : Option Login
  pub default : Bytes
  pub sleep_detection_threshold : Int64
  pub upstreams : Upstreams
  pub routes : List ConfigRoute
  pub target : Bytes
  pub region : Bytes
  pub ssh_user : Bytes
  pub ssh_key : Bytes
  pub aws_profile : Bytes

pub data Loaded : Type 0 where
  loaded : Config → Loaded
  refused : ConfigError → Loaded

-- applyAuthOverrides, by the values of auth-user and auth-pass.
unfoldable pub apply_auth_overrides : Bytes → Bytes → Options → Options
apply_auth_overrides user pass opt =
    if not (is_nil user) && not (is_nil pass)
    then record opt { auth = some (record { user = user; pass = pass }) }
    else opt

-- The configuration unless it was refused.
unfoldable pub outcome : Option ConfigError × Config → Loaded
outcome (none, c) = loaded c
outcome (some e, c) = refused e

abbrev pub config_of : Options → Config
config_of opt = record {
  listen = opt.listen;
  diag_listen = opt.diag_listen;
  auth = opt.auth;
  upstreams = opt.upstreams;
  routes = opt.routes;
  default = opt.default;
  sleep_detection_threshold = opt.sleep_detection_threshold;
}

-- The one upstream of the legacy mode.
abbrev pub legacy_upstream : Options → Upstream
legacy_upstream opt = record {
  ssh = record { user = opt.ssh_user; key = opt.ssh_key };
  aws = record { profile = opt.aws_profile; region = opt.region; access_key = []; secret_key = [] };
  instances = opt.target ∷ [];
}

abbrev pub legacy_config_of : Options → Config
legacy_config_of opt = record {
  listen = opt.listen;
  diag_listen = opt.diag_listen;
  auth = opt.auth;
  upstreams = (codes "default", legacy_upstream opt) ∷ [];
  routes = [];
  default = codes "default";
  sleep_detection_threshold = opt.sleep_detection_threshold;
}

-- toLegacyConfig
unfoldable pub to_legacy_config : Options → Loaded
unfolding outcome
to_legacy_config opt =
    if is_nil opt.target then refused target_required else outcome (validate (legacy_config_of opt))

-- ToConfig. The configuration shares its upstreams with the options, which see their defaults.
unfoldable pub to_config : Options → Loaded × Options
unfolding to_legacy_config
to_config opt =
    if not (is_nil opt.target) && is_nil opt.upstreams
    then (to_legacy_config opt, opt)
    else (let checked = validate (config_of opt) in
        (outcome checked, record opt { upstreams = checked.1.upstreams }))

-- The loop over the instances, whose numbers are the same.
same_instances : List Bytes → List Bytes → Bool
same_instances [] others = true
same_instances (i ∷ is) [] = false
same_instances (i ∷ is) (j ∷ js) = let rest = same_instances is js in eq_bytes i j && rest

-- upstreamsEqual
unfoldable pub upstreams_equal : Upstream → Upstream → Bool
unfolding same_instances
upstreams_equal a b =
    if not (eq_bytes a.ssh.user b.ssh.user && eq_bytes a.ssh.key b.ssh.key)
    then false
    else if not (
        eq_bytes a.aws.profile b.aws.profile
        && eq_bytes a.aws.region b.aws.region
        && eq_bytes a.aws.access_key b.aws.access_key
        && eq_bytes a.aws.secret_key b.aws.secret_key)
    then false
    else if not (length a.instances == length b.instances)
    then false
    else same_instances a.instances b.instances

-- The loop of validateUpstreamsUnchanged.
unfoldable pub each_unchanged : Upstreams → Upstreams → Bool
unfolding upstreams_equal
each_unchanged [] new = true
each_unchanged ((name, up) ∷ old) new =
    let rest = each_unchanged old new in
    elim (lookup bytes_discrete name new) [
      | none ↦ false
      | some other ↦ upstreams_equal up other && rest
    ]

-- validateUpstreamsUnchanged
unfoldable pub upstreams_unchanged : Upstreams → Upstreams → Bool
unfolding each_unchanged
upstreams_unchanged old new = if length old == length new then each_unchanged old new else false

-- What reload keeps of the running options.
abbrev pub kept : Options → Options → Options
kept opt new = record new { config_file = opt.config_file; debug = opt.debug; listen = opt.listen }

-- reload, where `parsed` is what Parse makes of the changed file.
unfoldable pub reload : Option Options → Options → Loaded
unfolding upstreams_unchanged to_config
reload none opt = refused reload_failed
reload (some new) opt =
    if upstreams_unchanged opt.upstreams new.upstreams
    then (to_config (kept opt new)).0
    else refused upstreams_changed
