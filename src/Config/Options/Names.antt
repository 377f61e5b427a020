-- ===== src/Config/Options/Names.antt =====
-- The names of the upstreams over a reload of internal/config/options.go.
use session_proxy.Prelude.{
  ◌≤◌, ◌≡◌, inl, inr, refl, true, [], ◌∷◌, none, arith, All, length, Option-cases,
}
use session_proxy.Prelude.Assoc.{
  lookup, delete, Distinct, lookup-delete, length-delete-lt, delete-Distinct, lookup_empty,
}
use session_proxy.Prelude.Bytes.{Bytes, bytes_discrete}
use session_proxy.Config.{Upstreams, has_upstream}
use session_proxy.Config.Options.{each_unchanged, upstreams_unchanged}

-- Every entry has its name among the others.
NamedIn : Upstreams → Upstreams → Type 0
NamedIn others ups = All (λ e. has_upstream e.0 others ≡ true) ups

NamedIn-delete :
    (name : Bytes) (others ups : Upstreams)
    → lookup bytes_discrete name ups ≡ none
    → NamedIn others ups
    → NamedIn (delete bytes_discrete name others) ups
unfolding NamedIn lookup has_upstream
NamedIn-delete name others [] h n = tt
NamedIn-delete name others ((k, up) ∷ ups) h n = (
  ground (arith, h, n.0, lookup-delete bytes_discrete name k others),
  NamedIn-delete name others ups (ground (arith, h)) n.1,
)

-- A list of other names that is no longer holds no name more.
NamedIn-covers :
    (ups others : Upstreams) (name : Bytes)
    → Distinct bytes_discrete ups
    → Distinct bytes_discrete others
    → length others ≤ length ups
    → NamedIn others ups
    → has_upstream name others ≡ true
    → has_upstream name ups ≡ true
unfolding NamedIn has_upstream lookup
NamedIn-covers [] others name d f l n h =
    absurd (ground (arith, h, lookup_empty bytes_discrete name others l))
NamedIn-covers ((k, up) ∷ ups) others name d f l n h =
    elim (Option-cases (lookup bytes_discrete k others)) [
      | inl e ↦ absurd (ground (arith, n.0, e))
      | inr (v, e) ↦ ground (
        arith,
        h,
        lookup-delete bytes_discrete k name others,
        NamedIn-covers ups (delete bytes_discrete k others) name d.1
            (delete-Distinct bytes_discrete k others f)
            (omega (arith, l, length-delete-lt bytes_discrete k v others e))
            (NamedIn-delete k others ups d.0 n.1),
      )
    ]

each_unchanged-NamedIn : (old new : Upstreams) → each_unchanged old new ≡ true → NamedIn new old
unfolding each_unchanged NamedIn has_upstream
each_unchanged-NamedIn [] new h = tt
each_unchanged-NamedIn ((name, up) ∷ old) new h =
    elim (Option-cases (lookup bytes_discrete name new)) [
      | inl e ↦ absurd (ground (arith, h, e))
      | inr (v, e) ↦ (ground (arith, e), each_unchanged-NamedIn old new (ground (arith, h, e)))
    ]

-- Unchanged upstreams have the names that they had.
pub upstreams_unchanged_names :
    (old new : Upstreams) (name : Bytes)
    → Distinct bytes_discrete old
    → Distinct bytes_discrete new
    → upstreams_unchanged old new ≡ true
    → has_upstream name new ≡ true
    → has_upstream name old ≡ true
unfolding upstreams_unchanged
upstreams_unchanged_names old new name d f u h =
    NamedIn-covers old new name d f (ground (arith, u))
      (each_unchanged-NamedIn old new (ground (arith, u))) h

pub upstreams_unchanged_nil :
    (old new : Upstreams) → upstreams_unchanged old new ≡ true → new ≡ [] → old ≡ []
unfolding upstreams_unchanged
upstreams_unchanged_nil [] new u n = refl
upstreams_unchanged_nil (e ∷ old) new u n = absurd (ground (arith, u, n))
