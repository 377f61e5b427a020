-- ===== src/Config/Defaults.antt =====
-- The defaults that validate of internal/config/config.go fills in.
use session_proxy.Prelude.{◌≡◌, ◌⊎◌, refl, subst, sym, false, [], ◌∷◌, none, arith, All}
use session_proxy.Prelude.Bytes.{Bytes, is_nil}
use session_proxy.Config.{
  Upstream, Upstreams, validate_aws_config, validate_upstream, validate_upstreams,
}

-- An upstream that leaves no default to fill in.
pub record IsExplicit (e : Bytes × Upstream) : Type 0 where
  pub user_given : is_nil e.1.ssh.user ≡ false
  pub mode_given : (is_nil e.1.aws.profile ≡ false) ⊎ (is_nil e.1.aws.access_key ≡ false)

validate_upstream_explicit :
    (name : Bytes) (up : Upstream) → IsExplicit (name, up) → (validate_upstream name up).1 ≡ up
unfolding validate_upstream validate_aws_config
validate_upstream_explicit name up x = ground (arith, x.user_given, x.mode_given)

validate_upstream-IsExplicit :
    (name : Bytes) (up : Upstream)
    → (validate_upstream name up).0 ≡ none
    → IsExplicit (name, (validate_upstream name up).1)
unfolding validate_upstream validate_aws_config
validate_upstream-IsExplicit name up h = record {
  user_given = ground (arith, h);
  mode_given = ground (arith, h);
}

-- Explicit upstreams stay as they are.
pub validate_upstreams_explicit :
    (ups : Upstreams) → All IsExplicit ups → (validate_upstreams ups).1 ≡ ups
unfolding validate_upstreams
validate_upstreams_explicit [] x = refl
validate_upstreams_explicit ((name, up) ∷ ups) (x, xs) =
    ground (arith, validate_upstream_explicit name up x, validate_upstreams_explicit ups xs)

pub validate_upstreams-IsExplicit :
    (ups : Upstreams)
    → (validate_upstreams ups).0 ≡ none
    → All IsExplicit (validate_upstreams ups).1
unfolding validate_upstreams
validate_upstreams-IsExplicit [] h = tt
validate_upstreams-IsExplicit ((name, up) ∷ ups) h =
    subst (All IsExplicit) (sym (step (ground (arith, h)))) (
      entries (validate_upstream-IsExplicit name up (ground (arith, h)))
        (validate_upstreams-IsExplicit ups (ground (arith, h))))
  where
    step :
        (validate_upstream name up).0 ≡ none
        → (validate_upstreams ((name, up) ∷ ups)).1
          ≡ (name, (validate_upstream name up).1) ∷ (validate_upstreams ups).1
    step e = ground (arith, e)

    entries :
        IsExplicit (name, (validate_upstream name up).1)
        → All IsExplicit (validate_upstreams ups).1
        → All IsExplicit ((name, (validate_upstream name up).1) ∷ (validate_upstreams ups).1)
    entries x xs = (x, xs)
