-- ===== src/Pool/Connect/Failover.antt =====
-- Which instance connect of internal/upstream/pool.go settles on.
use session_proxy.Prelude.{
  ℕ, zero, suc, ◌+◌, ◌-◌, ◌%◌, ◌<◌, ◌≤◌, ◌≡◌, ◌≢◌, refl, sym, ap, subst, ◌∙◌, inl, inr, Bool, true,
  false, List, [], none, some, arith, ltb, if◌then◌else◌, Option-cases,
}
use native.Mathlib.Nat.{mod_self}
use session_proxy.Pool.Connect.{
  Single, Instances, advance_instance, new_conns, connect_pool, connect_loop, connect,
}

-- The index `steps` behind another on the round of `number` instances.
abbrev pub around : ℕ → ℕ → ℕ → ℕ
around number from steps = if ltb (from + steps) number then from + steps else from + steps - number

advance_around : (n c : ℕ) → c < n → (c + 1) % n ≡ around n c 1
advance_around n c h = grind (arith, mod_self n)

around-suc : (n c s : ℕ) → c < n → s < n → around n ((c + 1) % n) s ≡ around n c (suc s)
around-suc n c s h k = rw (advance_around n c h) (ground (arith, h, k))

around_zero : (n c : ℕ) → c < n → c ≡ around n c 0
around_zero n c h = ground (arith, h)

-- Where connect ends: at the first instance, from the current one on, that something could be
-- established to, with just that in the pool; or, after each was tried once, where it began.
pub data Settles (results : ℕ → List Single) (g h : Instances) (attempts : ℕ) : Bool → Type 0 where
  settles :
      (steps : ℕ)
      → steps < attempts
      → h.current ≡ around g.number g.current steps
      → h.conns ≡ new_conns (results h.current)
      → h.conns ≢ []
      → ((i : ℕ) → i < steps → new_conns (results (around g.number g.current i)) ≡ [])
      → Settles results g h attempts true
  nowhere :
      h.current ≡ around g.number g.current attempts
      → h.conns ≡ g.conns
      → ((i : ℕ) → i < attempts → new_conns (results (around g.number g.current i)) ≡ [])
      → Settles results g h attempts false

connect_pool-none :
    (rs : List Single) (g : Instances) → connect_pool rs g ≡ none → new_conns rs ≡ []
unfolding connect_pool
connect_pool-none rs g h = ground (arith, h)

connect_pool-some :
    (rs : List Single) (g h : Instances)
    → connect_pool rs g ≡ some h
    → (h.current ≡ g.current) × (h.conns ≡ new_conns rs) × (h.conns ≢ [])
unfolding connect_pool
connect_pool-some rs g h e = ground (arith, e)

advanced_lt :
    (g : Instances)
    → g.current < g.number
    → (advance_instance g).current < (advance_instance g).number
unfolding advance_instance
advanced_lt g c = rw (advance_around g.number g.current c) (ground (arith, c))

module _ (results : ℕ → List Single) where
  none_before :
      (g : Instances) (steps : ℕ)
      → g.current < g.number
      → steps < g.number
      → new_conns (results g.current) ≡ []
      → ((i : ℕ)
          → i < steps
          → new_conns (results (around g.number ((g.current + 1) % g.number) i)) ≡ [])
      → (i : ℕ) → i < suc steps
      → new_conns (results (around g.number g.current i)) ≡ []
  none_before g steps c n e before zero l =
      subst (λ k. new_conns (results k) ≡ []) (around_zero g.number g.current c) e
  none_before g steps c n e before (suc i) l =
      subst (λ k. new_conns (results k) ≡ [])
        (around-suc g.number g.current i c (omega (arith, l, n))) (before i (omega (arith, l)))

  one_further :
      (g h : Instances) (attempts : ℕ) (b : Bool)
      → g.current < g.number
      → attempts < g.number
      → new_conns (results g.current) ≡ []
      → Settles results (advance_instance g) h attempts b
      → Settles results g h (suc attempts) b
  unfolding advance_instance
  one_further g h attempts b c n e (settles steps l cur cs ne before) =
      settles (suc steps) (omega (arith, l))
        (cur ∙ around-suc g.number g.current steps c (omega (arith, l, n))) cs ne
        (none_before g steps c (omega (arith, l, n)) e before)
  one_further g h attempts b c n e (nowhere cur cs before) =
      nowhere (cur ∙ around-suc g.number g.current attempts c n) cs
        (none_before g attempts c n e before)

  connect_loop-Settles :
      (attempts : ℕ) (g : Instances)
      → g.current < g.number
      → attempts ≤ g.number
      → Settles results g
          (connect_loop results attempts g).1
          attempts
          (connect_loop results attempts g).0
  unfolding connect_loop
  connect_loop-Settles zero g c n =
      nowhere (around_zero g.number g.current c) refl (λ i l. absurd (omega (arith, l)))
  connect_loop-Settles (suc attempts) g c n =
      elim (Option-cases (connect_pool (results g.current) g)) [
        | inr (h, e) ↦
            let (cur, cs, ne) = connect_pool-some (results g.current) g h e in
            rw (e, connect_loop)
              (settles 0 (omega arith) (cur ∙ around_zero g.number g.current c)
                (cs ∙ ap (λ k. new_conns (results k)) (sym cur)) ne
                (λ i l. absurd (omega (arith, l))))
        | inl e ↦
            rw (e, connect_loop)
              (one_further g _ attempts _ c n (connect_pool-none (results g.current) g e) (
                connect_loop-Settles attempts (advance_instance g) (advanced_lt g c)
                  (omega (arith, n))))
      ]

full_circle :
    (results : ℕ → List Single) (g h : Instances) (b : Bool)
    → g.current < g.number
    → Settles results g h g.number b
    → b ≡ false
    → h.current ≡ g.current
full_circle results g h b c (settles steps l cur cs ne before) e = absurd (ground (arith, e))
full_circle results g h b c (nowhere cur cs before) e = ground (arith, cur, c)

-- connect settles on the first instance, from the current one on and around, that a connection
-- could be established to, and the pool is what was established to it. It fails only where there
-- is none; then each was tried once, and the pool and the current instance are as before.
pub connect-Settles :
    (results : ℕ → List Single) (g : Instances)
    → g.current < g.number
    → Settles results g (connect results g).1 g.number (connect results g).0
      × ((connect results g).0 ≡ false → (connect results g).1.current ≡ g.current)
unfolding connect
connect-Settles results g c =
    let s = connect_loop-Settles results g.number g c (omega arith) in
    (s, full_circle results g _ _ c s)
