-- ===== src/Pool/Handoff/Settles.antt =====
-- What dial of internal/upstream/pool.go and its goroutine leave behind, whatever the interleaving.
use session_proxy.Prelude.{
  ℕ, ◌+◌, ◌<◌, ◌≡◌, ◌≢◌, ◌⊎◌, inl, inr, refl, sym, ap, subst, Bool, true, false, arith,
  if◌then◌else◌, Bool-cases,
}
use session_proxy.Pool.Handoff.{
  Handoff, Opener, opening, checking, offering, finished, cleaning, no_channel, open_channel,
  closed_channel, given_channel, finish_dial, check_abandoned, withdraw, close_late, clean_up,
  give_up, take_result, Step, dialled, ctx_ended, looked, withdrew, cleaned, gave_up, handed,
  Reachable, begun, stepped,
}

-- What holds before the goroutine is done with the channel, and after.
abbrev Before : Handoff → Type 0
Before s =
    (s.inflight ≡ 1)
    × (s.cleanup_done ≡ false)
    × (s.channel ≢ closed_channel)
    × (s.channel ≢ given_channel)
    × (((s.caller_waits ≡ true) × (s.abandoned ≡ false) × (s.pending ≡ 0))
        ⊎ ((s.caller_waits ≡ false) × (s.abandoned ≡ true) × (s.pending ≡ 1)))
    × (s.active ≡ 0)
    × (s.late_successes + s.late_failures ≡ 0)

abbrev Fits : Opener → Handoff → Type 0
Fits opening s = Before s × (s.channel ≡ no_channel)
Fits checking s = Before s
Fits offering s = Before s
Fits (cleaning true) s =
    (s.inflight ≡ 1)
    × (s.channel ≢ closed_channel)
    × (s.channel ≢ given_channel)
    × (s.caller_waits ≡ false)
    × (s.pending ≡ 1)
    × (s.active ≡ 0)
    × (s.late_successes + s.late_failures ≡ 0)
Fits (cleaning false) s =
    (s.inflight ≡ 1)
    × (s.channel ≢ closed_channel)
    × (s.channel ≢ given_channel)
    × (s.pending ≡ 0)
    × (s.cleanup_done ≡ true)
    × (s.active ≡ 0)
    × (s.late_successes + s.late_failures ≡ 0)
Fits finished s =
    (s.inflight ≡ 0)
    × (s.channel ≢ open_channel)
    × (s.pending ≡ 0)
    × ((s.caller_waits ≡ true) → (s.cleanup_done ≡ true) × (s.active ≡ 0))
    × (((s.channel ≡ given_channel) × (s.active ≡ 1))
        ⊎ ((s.channel ≢ given_channel) × (s.active ≡ 0)))

ctx-Fits : (o : Opener) (s : Handoff) → Fits o s → Fits o (record s { ctx_done = true })
ctx-Fits opening s f = f
ctx-Fits checking s f = f
ctx-Fits offering s f = f
ctx-Fits (cleaning true) s f = f
ctx-Fits (cleaning false) s f = f
ctx-Fits finished s f = f

give_up-Fits : (o : Opener) (s : Handoff) → s.caller_waits ≡ true → Fits o s → Fits o (give_up s)
unfolding give_up
give_up-Fits opening s w f = ground (arith, w, f)
give_up-Fits checking s w f = ground (arith, w, f)
give_up-Fits offering s w f = ground (arith, w, f)
give_up-Fits (cleaning true) s w f = ground (arith, w, f)
give_up-Fits (cleaning false) s w f = ground (arith, w, f)
give_up-Fits finished s w f = ground (arith, w, f)

take_result-opener : (s : Handoff) → (take_result s).opener ≡ finished
unfolding take_result
take_result-opener s = ground arith

give_up-opener : (s : Handoff) → (give_up s).opener ≡ s.opener
unfolding give_up
give_up-opener s = ground arith

dialled-Fits :
    (ok broken : Bool) (s : Handoff) → Fits opening s → Fits checking (finish_dial ok broken s)
unfolding finish_dial
dialled-Fits ok broken s f = ground (arith, f)

looked-Fits :
    (b : Bool) (s : Handoff)
    → s.abandoned ≡ b
    → Fits checking s
    → Fits (if b then cleaning true else offering) (check_abandoned s)
unfolding check_abandoned
looked-Fits true s e f = ground (arith, e, f)
looked-Fits false s e f = ground (arith, e, f)

withdrew-Fits :
    (b : Bool) (s : Handoff) → s.abandoned ≡ b → Fits offering s → Fits (cleaning b) (withdraw s)
unfolding withdraw
withdrew-Fits true s e f = ground (arith, e, f)
withdrew-Fits false s e f = ground (arith, e, f)

cleaned-Fits : (b : Bool) (s : Handoff) → Fits (cleaning b) s → Fits finished (clean_up b s)
unfolding clean_up close_late
cleaned-Fits true s f = ground (arith, f)
cleaned-Fits false s f = ground (arith, f)

handed-Fits :
    (s : Handoff) → s.caller_waits ≡ true → Fits offering s → Fits finished (take_result s)
unfolding take_result
handed-Fits s w f = ground (arith, w, f)

Step-Fits : (s t : Handoff) → Step s t → Fits s.opener s → Fits t.opener t
unfolding finish_dial check_abandoned withdraw clean_up
Step-Fits s _ (dialled ok broken h) f = dialled-Fits ok broken s (subst (λ o. Fits o s) h f)
Step-Fits s _ ctx_ended f = ctx-Fits s.opener s f
Step-Fits s _ (looked h) f = looked-Fits s.abandoned s refl (subst (λ o. Fits o s) h f)
Step-Fits s _ (withdrew h d) f = withdrew-Fits s.abandoned s refl (subst (λ o. Fits o s) h f)
Step-Fits s _ (cleaned timed_out h) f = cleaned-Fits timed_out s (subst (λ o. Fits o s) h f)
Step-Fits s _ (gave_up w d) f =
    subst (λ o. Fits o (give_up s)) (sym (give_up-opener s)) (give_up-Fits s.opener s w f)
Step-Fits s _ (handed h w) f =
    subst (λ o. Fits o (take_result s)) (sym (take_result-opener s))
      (handed-Fits s w (subst (λ o. Fits o s) h f))

Reachable-Fits : (s : Handoff) → Reachable s → Fits s.opener s
Reachable-Fits _ begun = ground arith
Reachable-Fits t (stepped {s} r p) = Step-Fits s t p (Reachable-Fits s r)

-- How many steps the two have at most in front of them.
abbrev pub rank : Opener → ℕ
rank opening = 4
rank checking = 3
rank offering = 2
rank (cleaning timed_out) = 1
rank finished = 0

abbrev pub steps_left : Handoff → ℕ
steps_left s = rank s.opener + (if s.caller_waits then 1 else 0)

-- Nothing is left behind: the slot is free, no dial is counted as abandoned, and the channel is in
-- the hands of the caller, counted, or not open.
pub record IsSettled (s : Handoff) : Type 0 where
  pub slot_free : s.inflight ≡ 0
  pub none_pending : s.pending ≡ 0
  pub not_open : s.channel ≢ open_channel
  pub counted :
      ((s.channel ≡ given_channel) × (s.active ≡ 1))
      ⊎ ((s.channel ≢ given_channel) × (s.active ≡ 0))

-- What is open for a dial: it is settled, or it waits for Dial to return, or for the context to end
-- or the result to come, or one of the two can make a step and has less in front of it then.
pub data Fate (s : Handoff) : Type 0 where
  all_done : s.opener ≡ finished → s.caller_waits ≡ false → IsSettled s → Fate s
  in_dial : s.opener ≡ opening → Fate s
  waits : s.ctx_done ≡ false → ((s.opener ≢ finished) ⊎ (s.caller_waits ≡ true)) → Fate s
  moves : (t : Handoff) → Step s t → steps_left t < steps_left s → Fate s

Fits-IsSettled : (s : Handoff) → Fits finished s → IsSettled s
Fits-IsSettled s f = record {
  slot_free = f.0;
  none_pending = ground (arith, f);
  not_open = ground (arith, f);
  counted = ground (arith, f);
}

-- The context has ended.
ended : (o : Opener) (s : Handoff) → s.opener ≡ o → Fits o s → s.ctx_done ≡ true → Fate s
unfolding check_abandoned withdraw clean_up close_late give_up
ended opening s e f d = in_dial e
ended checking s e f d = moves (check_abandoned s) (looked e) (ground (arith, ap rank e))
ended offering s e f d = moves (withdraw s) (withdrew e d) (ground (arith, ap rank e))
ended (cleaning timed_out) s e f d =
    moves (clean_up timed_out s) (cleaned timed_out e) (ground (arith, ap rank e))
ended finished s e f d = elim (Bool-cases s.caller_waits) [
  | inl w ↦ moves (give_up s) (gave_up w d) (ground (arith, ap rank e, w))
  | inr w ↦ all_done e w (Fits-IsSettled s f)
]

-- It has not.
not_ended : (o : Opener) (s : Handoff) → s.opener ≡ o → Fits o s → s.ctx_done ≡ false → Fate s
not_ended opening s e f d = in_dial e
not_ended checking s e f d = waits d (inl (ground (arith, ap rank e)))
not_ended offering s e f d = waits d (inl (ground (arith, ap rank e)))
not_ended (cleaning timed_out) s e f d = waits d (inl (ground (arith, ap rank e)))
not_ended finished s e f d = elim (Bool-cases s.caller_waits) [
  | inl w ↦ waits d (inr w)
  | inr w ↦ all_done e w (Fits-IsSettled s f)
]

-- Whatever the interleaving, a dial whose goroutine and caller are done is settled: its slot is
-- free, it is not counted as abandoned, and the channel is with the caller and counted or is not
-- open. When the context has ended and Dial has returned, it comes to that: one of the two can move,
-- and has less in front of it then.
pub Reachable-settles : (s : Handoff) → Reachable s → Fate s
Reachable-settles s r = elim (Bool-cases s.ctx_done) [
  | inl d ↦ ended s.opener s refl (Reachable-Fits s r) d
  | inr d ↦ not_ended s.opener s refl (Reachable-Fits s r) d
]
