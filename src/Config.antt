-- ===== src/Config.antt =====
-- internal/config/config.go: the configuration and its validation. A map of pointers is an
-- association list of what they point to; validate writes its defaults through the pointers, so
-- that it returns the upstreams as it leaves them, on errors too.
pub mod Validation
pub mod Defaults
pub mod Options
pub mod Watch
use session_proxy.Prelude.{
  ℕ, ◌*◌, Bool, true, false, ◌&&◌, ◌||◌, not, List, [], ◌∷◌, Option, none, some, if◌then◌else◌,
}
use session_proxy.Prelude.Assoc.{lookup}
use session_proxy.Prelude.Bytes.{Bytes, codes, bytes_discrete, is_nil, eq_bytes}
use session_proxy.Prelude.Int64.{Int64, slt}

pub record SshConfig : Type 0 where
  pub user : Bytes
  pub key : Bytes

pub record AwsConfig : Type 0 where
  pub profile : Bytes
  pub region : Bytes
  pub access_key : Bytes
  pub secret_key : Bytes

pub record Upstream : Type 0 where
  pub ssh : SshConfig
  pub aws : AwsConfig
  pub instances : List Bytes

abbrev pub Upstreams : Type 0
Upstreams = List (Bytes × Upstream)

pub record Login : Type 0 where
  pub user : Bytes
  pub pass : Bytes

pub record ConfigRoute : Type 0 where
  pub pattern_text : Bytes
  pub upstream : Bytes

pub record Config : Type 0 where
  pub listen : Bytes
  pub diag_listen : Bytes
  pub auth : Option Login
  pub upstreams : Upstreams
  pub routes : List ConfigRoute
  pub default : Bytes
  pub sleep_detection_threshold : Int64

pub data ConfigError : Type 0 where
  no_upstreams : ConfigError
  no_instances keys_apart profile_with_keys region_missing : Bytes → ConfigError
  unknown_default : Bytes → ConfigError
  route_without_match : ℕ → ConfigError
  target_required reload_failed upstreams_changed : ConfigError
  route_unknown_upstream : ℕ → Bytes → ConfigError

abbrev pub direct : Bytes
direct = codes "DIRECT"

abbrev pub default_listen : Bytes
default_listen = codes "127.0.0.1:28881"

abbrev pub minute : ℕ
minute = 60 * 1000000000

-- a != b on bool
abbrev pub differ : Bool → Bool → Bool
differ a b = if a then not b else b

-- validateAWSConfig, and the configuration as it leaves it.
unfoldable pub validate_aws_config : Bytes → AwsConfig → Option ConfigError × AwsConfig
validate_aws_config name aws =
    let has_profile = not (is_nil aws.profile) in
    let has_access_key = not (is_nil aws.access_key) in
    let has_secret_key = not (is_nil aws.secret_key) in
    if differ has_access_key has_secret_key
    then (some (keys_apart name), aws)
    else if has_profile && has_access_key
    then (some (profile_with_keys name), aws)
    else if has_access_key && is_nil aws.region
    then (some (region_missing name), aws)
    else if not has_profile && not has_access_key
    then (none, record aws { profile = codes "default" })
    else (none, aws)

-- One round of the loop over the upstreams.
unfoldable pub validate_upstream : Bytes → Upstream → Option ConfigError × Upstream
unfolding validate_aws_config
validate_upstream name up =
    if is_nil up.instances
    then (some (no_instances name), up)
    else (let checked = validate_aws_config name up.aws in
        (
          checked.0,
          record up {
            ssh = record up.ssh { user = if is_nil up.ssh.user then codes "root" else up.ssh.user };
            aws = checked.1;
          },
        ))

-- The loop, which stops at the first error.
unfoldable pub validate_upstreams : Upstreams → Option ConfigError × Upstreams
unfolding validate_upstream
validate_upstreams [] = (none, [])
validate_upstreams ((name, up) ∷ ups) =
    let checked = validate_upstream name up in
    let rest = validate_upstreams ups in
    elim checked.0 [
      | none ↦ (rest.0, (name, checked.1) ∷ rest.1)
      | some e ↦ (some e, (name, checked.1) ∷ ups)
    ]

-- _, ok := upstreams[name]
unfoldable pub has_upstream : Bytes → Upstreams → Bool
has_upstream name ups = elim (lookup bytes_discrete name ups) [ none ↦ false | some up ↦ true ]

unfoldable pub check_default : Upstreams → Bytes → Option ConfigError
unfolding has_upstream
check_default ups name =
    if is_nil name || eq_bytes name direct || has_upstream name ups
    then none
    else some (unknown_default name)

-- One round of the loop over the routes.
unfoldable pub check_route : Upstreams → ℕ → ConfigRoute → Option ConfigError
unfolding has_upstream
check_route ups i r =
    if is_nil r.pattern_text
    then some (route_without_match i)
    else if eq_bytes r.upstream direct || has_upstream r.upstream ups
    then none
    else some (route_unknown_upstream i r.upstream)

-- The first of two errors.
abbrev pub first_of : Option ConfigError → Option ConfigError → Option ConfigError
first_of none other = other
first_of (some e) other = some e

unfoldable pub check_routes : Upstreams → ℕ → List ConfigRoute → Option ConfigError
unfolding check_route
check_routes ups i [] = none
check_routes ups i (r ∷ rs) =
    first_of (check_route ups i r) (check_routes ups (Prim.Native.Nat.suc i) rs)

unfoldable pub fill_defaults : Config → Config
fill_defaults c = record c {
  listen = if is_nil c.listen then default_listen else c.listen;
  sleep_detection_threshold =
      if slt 0 c.sleep_detection_threshold then c.sleep_detection_threshold else minute;
}

-- The end of validate: the last defaults are only filled in where nothing failed.
unfoldable pub finish_validate : Option ConfigError → Config → Option ConfigError × Config
unfolding fill_defaults
finish_validate none c = (none, fill_defaults c)
finish_validate (some e) c = (some e, c)

-- validate, and the configuration as it leaves it.
unfoldable pub validate : Config → Option ConfigError × Config
unfolding validate_upstreams check_default check_routes finish_validate
validate c =
    if is_nil c.upstreams
    then (some no_upstreams, c)
    else (let (e, ups) = validate_upstreams c.upstreams in
        finish_validate
          (first_of e (first_of (check_default ups c.default) (check_routes ups 0 c.routes)))
          (record c { upstreams = ups }))
