-- ===== src/Adapter/Outgoing/Resend.antt =====
-- One tick of resendLoop of internal/protocol/adapter.go, up to the write of the frame.
pub mod Attempts
use session_proxy.Prelude.{
  dec_lt, ◌↔◌, ◌∙◌, ℕ, zero, suc, ◌+◌, ◌-◌, ◌^◌, ◌<◌, ◌≤◌, ◌≡◌, ◌≢◌, refl, sym, ap, ◌⊎◌, inl, inr,
  Bool, true, false, not, ◌&&◌, ◌||◌, List, [], ◌∷◌, Option, none, some, ite, arith, ltb, leb, ◌==◌,
  ==_refl, ==_iff, ==_ne, if◌then◌else◌, length, ℕ_discrete, Option-cases, Bool-cases,
}
use mathlib.Core.Logic.{if_pos, if_neg}
use session_proxy.Prelude.Assoc.{
  lookup, delete, delete_missing, put, Distinct, total, lookup-delete, lookup-put, delete-Distinct,
  put-Distinct, total-delete,
}
use session_proxy.Prelude.Bytes.{Bytes}
use session_proxy.Prelude.Int64.{Int64, max_int64, minus_one}
use session_proxy.Adapter.Outgoing.{
  OutgoingMessage, Outgoing, min_key, default_retransmission_timeout, max_retransmission_timeout,
  max_resend_attempts, max_pause_time,
}
use session_proxy.Adapter.Outgoing.Oldest.{
  Messages, seq_bound, Bounded, IsLeast, Front, empty, front, min_key-IsLeast,
}
use session_proxy.Adapter.Outgoing.Window.{Consistent, sizes, Front-IsLeast}

-- What the loop does at a tick: nothing, close the adapter, or write a frame again.
pub data Tick : Type 0 where
  idle : Outgoing → Tick
  pause_timed_out : Tick
  attempts_exceeded : Outgoing → Tick
  resend : Bytes → Outgoing → Tick

-- The timeout of a message: the longest one after a first resend.
unfoldable pub effective_rto : ℕ → OutgoingMessage → ℕ
effective_rto rto om =
    let base = if rto == 0 then default_retransmission_timeout else rto in
    if ltb 0 om.resend_count && ltb base max_retransmission_timeout
    then max_retransmission_timeout
    else base

-- om.resendCount and om.lastSent, written through the pointer in the map.
unfoldable pub resent : ℕ → OutgoingMessage → Outgoing → Outgoing
resent at om s = record s {
  messages =
      put ℕ_discrete s.oldest (record om { last_sent = at; resend_count = om.resend_count + 1 })
        s.messages;
}

unfoldable pub retry_oldest : ℕ → OutgoingMessage → Outgoing → Tick
unfolding effective_rto resent
retry_oldest now om s =
    if leb (now - om.last_sent) (effective_rto s.rto om)
    then idle s
    else if ltb max_resend_attempts (om.resend_count + 1)
    then attempts_exceeded (resent om.last_sent om s)
    else resend om.frame (resent now om s)

is_empty : Messages → Bool
is_empty [] = true
is_empty (e ∷ m) = false

unfoldable pub resend_oldest : ℕ → Outgoing → Tick
unfolding is_empty retry_oldest
resend_oldest now s =
    if s.oldest == minus_one || is_empty s.messages
    then idle s
    else elim (lookup ℕ_discrete s.oldest s.messages) [
      | none ↦ idle (record s { oldest = min_key max_int64 s.messages })
      | some om ↦ retry_oldest now om s
    ]

-- The body of the loop: `reconnecting`, `paused` and `paused_since` are read under their locks.
unfoldable pub resend_tick : ℕ → Bool → Bool → ℕ → Outgoing → Tick
resend_tick now reconnecting paused paused_since s =
    if reconnecting
    then idle s
    else if paused
    then (if not (paused_since == 0) && ltb max_pause_time (now - paused_since)
        then pause_timed_out
        else idle s)
    else resend_oldest now s

retry_oldest-resend :
    (now : ℕ) (om : OutgoingMessage) (s t : Outgoing) (frame : Bytes)
    → retry_oldest now om s ≡ resend frame t
    → (frame ≡ om.frame)
      × (om.resend_count < max_resend_attempts)
      × (effective_rto s.rto om < now - om.last_sent)
      × (t ≡ resent now om s)
unfolding retry_oldest
retry_oldest-resend now om s t frame e = ground arith

retry_oldest-ne-pause :
    (now : ℕ) (om : OutgoingMessage) (s : Outgoing) → retry_oldest now om s ≢ pause_timed_out
unfolding retry_oldest
retry_oldest-ne-pause now om s e = ground arith

resend_oldest_cases :
    (now : ℕ) (s : Outgoing)
    → ((t : Outgoing) × (resend_oldest now s ≡ idle t))
      ⊎ ((om : OutgoingMessage) × (lookup ℕ_discrete s.oldest s.messages ≡ some om)
          × (resend_oldest now s ≡ retry_oldest now om s))
resend_oldest_cases now s = elim (Option-cases (lookup ℕ_discrete s.oldest s.messages)) [
  | inl e ↦ elim (Bool-cases (s.oldest == minus_one || is_empty s.messages)) [
    | inl b ↦ inl (s, unfold resend_oldest in rw b)
    | inr b ↦
        inl (record s { oldest = min_key max_int64 s.messages }, unfold resend_oldest in rw (b, e))
  ]
  | inr (om, e) ↦ elim (Bool-cases (s.oldest == minus_one || is_empty s.messages)) [
    | inl b ↦ inl (s, unfold resend_oldest in rw b)
    | inr b ↦ inr (om, e, unfold resend_oldest in rw (b, e))
  ]
]

resend_oldest-resend :
    (now : ℕ) (s t : Outgoing) (frame : Bytes)
    → Consistent s
    → resend_oldest now s ≡ resend frame t
    → (om : OutgoingMessage) × (lookup ℕ_discrete s.oldest s.messages ≡ some om)
      × (frame ≡ om.frame)
      × (om.resend_count < max_resend_attempts)
      × (effective_rto s.rto om < now - om.last_sent)
      × (t ≡ resent now om s)
      × IsLeast s.oldest s.messages
resend_oldest-resend now s t frame v e = elim (resend_oldest_cases now s) [
  | inl (u, i) ↦ cc
  | inr (om, there, i) ↦
      let (a, b, c, d) = retry_oldest-resend now om s t frame (sym i ∙ e) in
      (om, there, a, b, c, d, Front-IsLeast s.oldest om v.oldest_front there)
]

-- A frame is written again only while publication goes on and the WebSocket stands. It is the one
-- of the least unacknowledged sequence number, its timeout has passed, fewer than the limit of
-- attempts were made, and the attempt is counted.
resend_tick-oldest :
    (now : ℕ) (reconnecting paused : Bool) (since : ℕ) (s t : Outgoing) (frame : Bytes)
    → Consistent s
    → resend_tick now reconnecting paused since s ≡ resend frame t
    → (reconnecting ≡ false)
      × (paused ≡ false)
      × ((om : OutgoingMessage) × (lookup ℕ_discrete s.oldest s.messages ≡ some om)
          × (frame ≡ om.frame)
          × (om.resend_count < max_resend_attempts)
          × (effective_rto s.rto om < now - om.last_sent)
          × (t ≡ resent now om s)
          × IsLeast s.oldest s.messages)
unfolding resend_tick
resend_tick-oldest now true paused since s t frame v e = cc
resend_tick-oldest now false true since s t frame v e = absurd (ground (arith, e))
resend_tick-oldest now false false since s t frame v e =
    (refl, refl, resend_oldest-resend now s t frame v e)

resend_oldest-ne-pause : (now : ℕ) (s : Outgoing) → resend_oldest now s ≢ pause_timed_out
resend_oldest-ne-pause now s e = elim (resend_oldest_cases now s) [
  | inl (t, i) ↦ cc
  | inr (om, there, i) ↦ retry_oldest-ne-pause now om s (sym i ∙ e)
]

-- The watchdog closes the adapter exactly when publication has been paused for longer than the
-- limit and no resume is under way.
resend_tick-pause :
    (now : ℕ) (reconnecting paused : Bool) (since : ℕ) (s : Outgoing)
    → (resend_tick now reconnecting paused since s ≡ pause_timed_out)
      ↔ ((reconnecting ≡ false) × (paused ≡ true) × (since ≢ 0) × (max_pause_time < now - since))
unfolding resend_tick
resend_tick-pause now true paused since s = (λ e. cc, λ h. cc (h.0))
resend_tick-pause now false false since s =
    (λ e. absurd (resend_oldest-ne-pause now s e), λ h. cc (h.1))
resend_tick-pause now false true since s = (λ e. ground arith, λ h. ground (arith, h.2))
