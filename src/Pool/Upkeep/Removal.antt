-- ===== src/Pool/Upkeep/Removal.antt =====
-- Which connections maintainOnce of internal/upstream/pool.go closes.
use session_proxy.Prelude.{
  ℕ, ◌+◌, ◌-◌, ◌↔◌, ◌<◌, ◌≡◌, ◌⊎◌, refl, sym, subst, ap, ◌∙◌, inl, inr, Bool, true, false, not,
  Bool-cases, List, [], ◌∷◌, ◌++◌, arith, All, All-imp, All-append, append_assoc, append-nil,
  length, length-append, if◌then◌else◌, if_both,
}
use session_proxy.Pool.{SshConn}
use session_proxy.Pool.Upkeep.{
  Upkeep, WakeProbe, select, is_failed, woke, remove_failed, remove_done, maintain_conns,
}

select-All : (test : SshConn → Bool) (cs : List SshConn) → All (λ c. test c ≡ true) (select test cs)
unfolding select
select-All test [] = tt
select-All test (c ∷ cs) =
    if_both (All (λ c. test c ≡ true)) (test c) _ _ (λ h. (h, select-All test cs))
      (λ h. select-All test cs)

All_each : (P : SshConn → Type 0) (cs : List SshConn) → ((c : SshConn) → P c) → All P cs
All_each P [] f = tt
All_each P (c ∷ cs) f = (f c, All_each P cs f)

All_imp2 :
    (P Q R : SshConn → Type 0) (cs : List SshConn)
    → ((c : SshConn) → P c → Q c → R c)
    → All P cs
    → All Q cs
    → All R cs
All_imp2 P Q R [] f p q = tt
All_imp2 P Q R (c ∷ cs) f p q = (f c p.0 q.0, All_imp2 P Q R cs f p.1 q.1)

select-keeps :
    (P : SshConn → Type 0) (test : SshConn → Bool) (cs : List SshConn)
    → All P cs
    → All P (select test cs)
unfolding select
select-keeps P test [] h = tt
select-keeps P test (c ∷ cs) h =
    if_both (All P) (test c) _ _ (λ t. (h.0, select-keeps P test cs h.1))
      (λ t. select-keeps P test cs h.1)

length-select :
    (test : SshConn → Bool) (cs : List SshConn)
    → length (select (λ c. not (test c)) cs) + length (select test cs) ≡ length cs
unfolding select
length-select test [] = omega arith
length-select test (c ∷ cs) = ground (arith, length-select test cs)

select_none :
    (test : SshConn → Bool) (cs : List SshConn)
    → select test cs ≡ []
    → All (λ c. not (test c) ≡ true) cs
unfolding select
select_none test [] e = tt
select_none test (c ∷ cs) e = elim (Bool-cases (test c)) [
  | inl t ↦ absurd (ground (arith, e, t))
  | inr t ↦ (ground (arith, t), select_none test cs (ground (arith, e, t)))
]

-- What a pass has done: `gone` left the pool for a reason P and was closed; what stays is counted,
-- and is a part of what was there; and where something left, the waiters were signalled.
pub record Removed (P : SshConn → Type 0) (g h : Upkeep) : Type 0 where
  pub gone : List SshConn
  pub closed_all : h.closed ≡ g.closed ++ gone
  pub for_reason : All P gone
  pub counted : length h.conns + length gone ≡ length g.conns
  pub signalled : ((gone ≡ []) × (g.signals ≡ h.signals)) ⊎ (g.signals < h.signals)

Removed-same :
    (P : SshConn → Type 0) (g h : Upkeep)
    → h.conns ≡ g.conns
    → h.closed ≡ g.closed
    → h.signals ≡ g.signals
    → Removed P g h
Removed-same P g h c d s = record {
  gone = [];
  closed_all = d ∙ sym (append-nil g.closed);
  for_reason = tt;
  counted = omega (arith, ap length c);
  signalled = inl (refl, sym s);
}

Removed-next :
    (P : SshConn → Type 0) (g h k : Upkeep) → Removed P g h → Removed P h k → Removed P g k
Removed-next P g h k a b = record {
  gone = a.gone ++ b.gone;
  closed_all =
      b.closed_all ∙ ap (λ c. c ++ b.gone) a.closed_all ∙ append_assoc g.closed a.gone b.gone;
  for_reason = All-append P a.gone b.gone a.for_reason b.for_reason;
  counted = omega (arith, a.counted, b.counted, length-append a.gone b.gone);
  signalled = ground (arith, a.signalled, b.signalled, a.counted, b.counted);
}

remove_done-Removed :
    (done : SshConn → Bool) (g : Upkeep) → Removed (λ c. done c ≡ true) g (remove_done done g)
unfolding remove_done
remove_done-Removed done g = record {
  gone = select done g.conns;
  closed_all = refl;
  for_reason = select-All done g.conns;
  counted = length-select done g.conns;
  signalled = ground (arith, length-select done g.conns);
}

List-cases :
    (cs : List SshConn) → (cs ≡ []) ⊎ ((c : SshConn) × (rest : List SshConn) × (cs ≡ c ∷ rest))
List-cases [] = inl refl
List-cases (c ∷ cs) = inr (c, cs, refl)

remove_failed-Removed :
    (probe : SshConn → WakeProbe) (g : Upkeep)
    → Removed (λ c. is_failed (probe c) ≡ true) g (remove_failed probe g)
unfolding remove_failed
remove_failed-Removed probe g = elim (List-cases (select (λ c. is_failed (probe c)) g.conns)) [
  | inl e ↦ Removed-same _ g _ (ground (arith, e)) (ground (arith, e)) (ground (arith, e))
  | inr (c, rest, e) ↦ record {
    gone = select (λ c. is_failed (probe c)) g.conns;
    closed_all = ground (arith, e);
    for_reason = select-All (λ c. is_failed (probe c)) g.conns;
    counted = ground (arith, e, length-select (λ c. is_failed (probe c)) g.conns);
    signalled = ground (arith, e);
  }
]

remove_failed_spares :
    (probe : SshConn → WakeProbe) (g : Upkeep)
    → All (λ c. not (is_failed (probe c)) ≡ true) (remove_failed probe g).conns
unfolding remove_failed
remove_failed_spares probe g = elim (List-cases (select (λ c. is_failed (probe c)) g.conns)) [
  | inl e ↦
      subst (All (λ c. not (is_failed (probe c)) ≡ true)) (ground (arith, e))
        (select_none (λ c. is_failed (probe c)) g.conns e)
  | inr (c, rest, e) ↦
      subst (All (λ c. not (is_failed (probe c)) ≡ true)) (ground (arith, e))
        (select-All (λ c. not (is_failed (probe c))) g.conns)
]

Removed-imp :
    (P Q : SshConn → Type 0) (g h : Upkeep)
    → ((c : SshConn) → P c → Q c)
    → Removed P g h
    → Removed Q g h
Removed-imp P Q g h f r = record {
  gone = r.gone;
  closed_all = r.closed_all;
  for_reason = All-imp P Q r.gone f r.for_reason;
  counted = r.counted;
  signalled = r.signalled;
}

module _ (probe : SshConn → WakeProbe) (done : SshConn → Bool) (threshold now : ℕ)
    (g : Upkeep) where
  -- More than the threshold has passed since the last pass, which there was.
  abbrev pub Slept : Type 0
  Slept = (0 < g.last_maintain) × (0 < threshold) × (threshold < now - g.last_maintain)

  -- The probe of a connection failed, and no inbound traffic speaks for it.
  abbrev pub IsSilent : SshConn → Type 0
  IsSilent c = ((probe c).probe_failed ≡ true) × ((probe c).recent_inbound ≡ false)

  -- Why a connection is closed.
  abbrev pub Reason : SshConn → Type 0
  Reason c = (done c ≡ true) ⊎ (Slept × IsSilent c)

  woke_iff : (woke threshold now g ≡ true) ↔ Slept
  unfolding woke
  woke_iff = (λ h. ground (arith, h), λ h. ground (arith, h.0, h.1, h.2))

  is_failed_iff : (c : SshConn) → (is_failed (probe c) ≡ true) ↔ IsSilent c
  unfolding is_failed
  is_failed_iff c = (λ h. ground (arith, h), λ h. ground (arith, h.0, h.1))

  awake-Removed :
      Removed Reason g
        (record (if woke threshold now g then remove_failed probe g else g) { last_maintain = now })
  awake-Removed =
      if_both {A = Upkeep} (λ h. Removed Reason g (record h { last_maintain = now }))
        (woke threshold now g) _ _
        (λ w. dated _ (
          Removed-imp _ Reason g _ (λ c f. inr (woke_iff.0 w, (is_failed_iff c).0 f))
            (remove_failed-Removed probe g)))
        (λ w. dated g (Removed-same Reason g g refl refl refl))
    where
      dated :
          (h : Upkeep) → Removed Reason g h → Removed Reason g (record h { last_maintain = now })
      dated h r = record {
        gone = r.gone;
        closed_all = r.closed_all;
        for_reason = r.for_reason;
        counted = r.counted;
        signalled = r.signalled;
      }

  -- Behind a sleep no silent connection is left for the look at the done channels.
  awake_spared :
      All
        (λ c. Slept → ¬ IsSilent c)
        (if woke threshold now g then remove_failed probe g else g).conns
  awake_spared =
      if_both {A = Upkeep} (λ k. All (λ c. Slept → ¬ IsSilent c) k.conns) (woke threshold now g) _ _
        (λ w. All-imp _ _ _ (λ c f h. spared c f) (remove_failed_spares probe g))
        (λ w. All_each _ g.conns (λ c h. absurd (ground (arith, w, woke_iff.1 h))))
    where
      spared : (c : SshConn) → not (is_failed (probe c)) ≡ true → ¬ IsSilent c
      spared c f q = ground (arith, f, (is_failed_iff c).1 q)

  not_done : (c : SshConn) → not (done c) ≡ true → (Slept → ¬ IsSilent c) → ¬ Reason c
  not_done c d f (inl r) = ground (arith, d, r)
  not_done c d f (inr (h, q)) = f h q

  -- maintainOnce leaves no connection in the pool whose done channel is closed, and where the system
  -- has slept, none whose probe failed without recent inbound traffic. What leaves the pool is closed,
  -- had one of these reasons, and is signalled to the waiting dials; together with what stays it is as
  -- many as were there. Nothing else changes the pool during the probes.
  pub maintain_conns-Removed :
      All (λ c. ¬ Reason c) (maintain_conns probe done threshold now g).conns
      × Removed Reason g (maintain_conns probe done threshold now g)
  unfolding maintain_conns remove_done
  maintain_conns-Removed = (
    All_imp2 _ _ _ _ not_done
        (select-All (λ c. not (done c))
          (if woke threshold now g then remove_failed probe g else g).conns)
        (select-keeps _ (λ c. not (done c)) _ awake_spared),
    Removed-next Reason g _ _ awake-Removed
        (Removed-imp _ Reason _ _ (λ c d. inl d) (remove_done-Removed done _)),
  )
