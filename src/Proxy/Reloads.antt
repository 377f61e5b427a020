-- ===== src/Proxy/Reloads.antt =====
-- Where the dialer of internal/proxy/server.go leads over the reloads of cmd/session-proxy/main.go.
use session_proxy.Prelude.{
  ◌≡◌, ◌⊎◌, ◌||◌, inl, inr, refl, sym, subst, ◌∙◌, true, List, [], ◌∷◌, Option, none, some, arith,
  All, All-imp, Option-cases, Bool-cases,
}
use session_proxy.Prelude.Assoc.{lookup, Distinct}
use session_proxy.Prelude.Bytes.{
  Bytes, codes, bytes_discrete, is_nil, is_nil_iff, eq_bytes, eq_bytes_iff,
}
use session_proxy.Config.{Upstream, Upstreams, Config, direct, has_upstream}
use session_proxy.Config.Validation.{IsKnown, has_upstream-validate_upstreams}
use session_proxy.Config.Options.{
  Options, Loaded, loaded, refused, to_config, reload, upstreams_unchanged, kept,
}
use session_proxy.Config.Options.Start.{
  Mode, legacy, routing, to_config-Mode, Loaded-cases, validate_upstreams-Distinct,
  validate_upstreams_nil,
}
use session_proxy.Config.Options.Names.{upstreams_unchanged_names, upstreams_unchanged_nil}
use session_proxy.Router.{Resolver, Router, new_router, match_addr}
use session_proxy.Proxy.{
  Proxy, directly, through, route_config, dial_target, start_proxy, on_config_reload, on_change,
  on_changes,
}
use session_proxy.Proxy.Routed.{
  IsRouted, match_addr-IsKnown, new_router-IsRouted, on_config_reload-IsRouted,
}

-- The maps that a change reads have no key twice.
abbrev pub IsKeyed : Option Options → Type 0
IsKeyed none = Unit
IsKeyed (some new) = Distinct bytes_discrete new.upstreams

module _ {Cidr Ip : Type 0} (net : Resolver Cidr Ip) where
  -- What every reload keeps.
  record IsSound (p : Proxy Cidr) : Type 0 where
    routed : IsRouted net p.groups p.router
    distinct : Distinct bytes_discrete p.opt.upstreams
    named :
        (name : Bytes)
        → has_upstream name p.opt.upstreams ≡ true
        → has_upstream name p.groups ≡ true
    legacy_named : p.opt.upstreams ≡ [] → has_upstream (codes "default") p.groups ≡ true

  IsKnown-imp :
      (ups others : Upstreams) (name : Bytes)
      → (has_upstream name ups ≡ true → has_upstream name others ≡ true)
      → IsKnown ups name
      → IsKnown others name
  IsKnown-imp ups others name f k = ground (arith, k, f)

  legacy_names :
      (groups : Upstreams) (up : Upstream) (name : Bytes)
      → has_upstream (codes "default") groups ≡ true
      → has_upstream name ((codes "default", up) ∷ []) ≡ true
      → has_upstream name groups ≡ true
  unfolding has_upstream lookup
  legacy_names groups up name g h = subst (λ n. has_upstream n groups ≡ true) (one name h) g
    where
      one : (n : Bytes) → has_upstream n ((codes "default", up) ∷ []) ≡ true → codes "default" ≡ n
      one n e = ground (arith, e)

  -- A loaded file that left the upstreams alone has no other names.
  reloaded_names :
      (p : Proxy Cidr) (new : Options) (c : Config)
      → IsSound p
      → Distinct bytes_discrete new.upstreams
      → upstreams_unchanged p.opt.upstreams new.upstreams ≡ true
      → Mode (kept p.opt new) c
      → (name : Bytes) → has_upstream name c.upstreams ≡ true
      → has_upstream name p.groups ≡ true
  reloaded_names p new c s d u (routing n e v) name h = s.named name (
      upstreams_unchanged_names p.opt.upstreams new.upstreams name s.distinct d u
        (sym (v.same_names name) ∙ h))
  reloaded_names p new c s d u (legacy n e v) name h =
      legacy_names p.groups _ name
        (s.legacy_named (upstreams_unchanged_nil p.opt.upstreams new.upstreams u n))
        (sym (v.same_names name) ∙ h)

  options-IsKnown :
      (opt : Options) (c : Config)
      → Mode opt c
      → IsKnown c.upstreams c.default × All (λ r. IsKnown c.upstreams r.upstream) c.routes
  options-IsKnown opt c (routing n e v) = (v.default_known, v.routes_known)
  options-IsKnown opt c (legacy n e v) = (v.default_known, v.routes_known)

  on_change-IsSound :
      (p : Proxy Cidr) (new : Options)
      → IsSound p
      → Distinct bytes_discrete new.upstreams
      → IsSound (on_change net (some new) p)
  unfolding on_change reload
  on_change-IsSound p new s d =
      elim (Bool-cases (upstreams_unchanged p.opt.upstreams new.upstreams)) [
        | inr u ↦ rw (u, on_change, reload) s
        | inl u ↦ rw (u, on_change, reload) (settle u ((to_config (kept p.opt new)).0) refl)
      ]
    where
      settle :
          upstreams_unchanged p.opt.upstreams new.upstreams ≡ true
          → (r : Loaded) → (to_config (kept p.opt new)).0 ≡ r
          → IsSound (elim r [
            | refused e ↦ p
            | loaded c ↦ record p { router = on_config_reload net c p.router }
          ])
      settle u (refused e) q = s
      settle u (loaded c) q =
          let m = to_config-Mode (kept p.opt new) c q in
          let names = reloaded_names p new c s d u m in
          let (k, ks) = options-IsKnown (kept p.opt new) c m in
          record {
            routed =
                on_config_reload-IsRouted net p.groups c p.router
                  (IsKnown-imp c.upstreams p.groups c.default (names c.default) k)
                  (All-imp _ _ c.routes
                    (λ r. IsKnown-imp c.upstreams p.groups r.upstream (names r.upstream)) ks)
                  s.routed;
            distinct = s.distinct;
            named = s.named;
            legacy_named = s.legacy_named;
          }

  on_change-groups :
      (parsed : Option Options) (p : Proxy Cidr) → (on_change net parsed p).groups ≡ p.groups
  unfolding on_change
  on_change-groups parsed p = ground arith

  on_changes-IsSound :
      (changes : List (Option Options)) (p : Proxy Cidr)
      → All IsKeyed changes
      → IsSound p
      → IsSound (on_changes net changes p) × ((on_changes net changes p).groups ≡ p.groups)
  unfolding on_changes reload
  on_changes-IsSound [] p k s = (s, refl)
  on_changes-IsSound (none ∷ rest) p k s = on_changes-IsSound rest p k.1 s
  on_changes-IsSound (some new ∷ rest) p k s =
      let (t, e) = on_changes-IsSound rest _ k.1 (on_change-IsSound p new s k.0) in
      (t, e ∙ on_change-groups (some new) p)

  -- The proxy that run makes.
  abbrev made : Options → Config → Router Cidr → Proxy Cidr
  made opt c r = record { router = r; groups = c.upstreams; opt = (to_config opt).1 }

  made-IsSound :
      (opt : Options) (c : Config) (r : Router Cidr)
      → Distinct bytes_discrete opt.upstreams
      → IsRouted net c.upstreams r
      → Mode opt c
      → IsSound (made opt c r)
  unfolding has_upstream lookup
  made-IsSound opt c r d i (legacy n e v) = record {
    routed = i;
    distinct = subst (Distinct bytes_discrete) (sym e) tt;
    named = λ name h. absurd (no_names name (subst (λ ups. has_upstream name ups ≡ true) e h));
    legacy_named = λ z. v.same_names (codes "default") ∙ ground arith;
  }
    where
      no_names : (name : Bytes) → has_upstream name [] ≡ true → ⊥
      no_names name h = ground (arith, h)
  made-IsSound opt c r d i (routing n e v) = record {
    routed = i;
    distinct =
        subst (Distinct bytes_discrete) (sym e) (validate_upstreams-Distinct opt.upstreams d);
    named = λ name h.
        v.same_names name
        ∙ sym (has_upstream-validate_upstreams name opt.upstreams)
        ∙ subst (λ ups. has_upstream name ups ≡ true) e h;
    legacy_named = λ z. absurd (n (validate_upstreams_nil opt.upstreams (sym e ∙ z)));
  }

  start_proxy-IsSound :
      (opt : Options) (p : Proxy Cidr)
      → Distinct bytes_discrete opt.upstreams
      → start_proxy net opt ≡ some p
      → IsSound p
  unfolding start_proxy
  start_proxy-IsSound opt p d h = elim (Loaded-cases (to_config opt).0) [
    | inl (e, q) ↦ absurd (ground (arith, q, h))
    | inr (c, q) ↦ elim (Option-cases (new_router net (route_config c))) [
      | inl n ↦ absurd (ground (arith, q, n, h))
      | inr (r, f) ↦
          let m = to_config-Mode opt c q in
          let (k, ks) = options-IsKnown opt c m in
          subst IsSound {x = made opt c r} (ground (arith, q, f, h))
            (made-IsSound opt c r d (new_router-IsRouted net c.upstreams c r f k ks) m)
    ]
  ]

  IsSound-target :
      (p : Proxy Cidr) (addr : Bytes)
      → IsSound p
      → (dial_target net p addr ≡ directly)
        ⊎ ((up : Upstream) × (lookup bytes_discrete (match_addr net p.router addr) p.groups
              ≡ some up)
            × (dial_target net p addr ≡ through up))
  unfolding dial_target has_upstream
  IsSound-target p addr s =
      elim (Option-cases (lookup bytes_discrete (match_addr net p.router addr) p.groups)) [
        | inl n ↦ inl (
            ground (
              arith,
              n,
              match_addr-IsKnown net p.groups p.router addr s.routed,
              is_nil_iff (match_addr net p.router addr),
              eq_bytes_iff (match_addr net p.router addr) direct,
            ))
        | inr (up, e) ↦
            elim (Bool-cases (
              is_nil (match_addr net p.router addr)
              || eq_bytes (match_addr net p.router addr) direct)) [
                | inl b ↦ inl (ground (arith, b))
                | inr b ↦ inr (up, e, ground (arith, b, e))
              ]
      ]

  -- The dialer never meets an unknown upstream: after a start, and any changes of the file with
  -- whatever Parse makes of each, an address is dialled directly or through the group, of those
  -- that the start made, that the router names.
  pub dial_target_known :
      (opt : Options) (p : Proxy Cidr) (changes : List (Option Options)) (addr : Bytes)
      → Distinct bytes_discrete opt.upstreams
      → All IsKeyed changes
      → start_proxy net opt ≡ some p
      → (dial_target net (on_changes net changes p) addr ≡ directly)
        ⊎ ((up : Upstream) × (lookup bytes_discrete
                (match_addr net (on_changes net changes p).router addr)
                p.groups
              ≡ some up)
            × (dial_target net (on_changes net changes p) addr ≡ through up))
  dial_target_known opt p changes addr d k h =
      let (s, e) = on_changes-IsSound changes p k (start_proxy-IsSound opt p d h) in
      subst
        (λ groups.
          (dial_target net (on_changes net changes p) addr ≡ directly)
          ⊎ ((up : Upstream) × (lookup bytes_discrete
                  (match_addr net (on_changes net changes p).router addr) groups
                ≡ some up)
              × (dial_target net (on_changes net changes p) addr ≡ through up)))
        e (IsSound-target (on_changes net changes p) addr s)
