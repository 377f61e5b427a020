-- ===== src/Adapter/Outgoing/Resend/Attempts.antt =====
-- resendLoop of internal/protocol/adapter.go over many ticks: the limit on attempts.
use session_proxy.Prelude.{
  ap, ◌∙◌, ℕ, ◌+◌, ◌-◌, ◌*◌, ◌⊎◌, inl, inr, Bool, true, none, suc, if◌then◌else◌, ◌<◌, ◌≤◌, ◌≡◌,
  ◌≢◌, refl, false, List, [], ◌∷◌, some, arith, ==_ne, ℕ_discrete,
}
use session_proxy.Prelude.Assoc.{lookup, lookup-put}
use session_proxy.Prelude.Bytes.{Bytes}
use session_proxy.Prelude.Int64.{minus_one}
use session_proxy.Adapter.Outgoing.{
  OutgoingMessage, Outgoing, max_retransmission_timeout, max_resend_attempts,
}
use session_proxy.Adapter.Outgoing.Oldest.{Messages}
use session_proxy.Adapter.Outgoing.Resend.{
  idle, pause_timed_out, attempts_exceeded, resend, resent, retry_oldest, is_empty, resend_oldest,
  resend_tick, effective_rto,
}
use session_proxy.Adapter.Lifecycle.{
  Link, close_with_error, close_adapter, set_close_reason, first_error, pause_publication_timed_out,
  resend_attempts_exceeded,
}

-- A tick: its time, and what the loop reads under the locks of others.
pub record Moment : Type 0 where
  pub at : ℕ
  pub reconnecting : Bool
  pub paused : Bool
  pub paused_since : ℕ

-- resendLoop, over ticks that nobody else works on the window between, and whose writes end.
unfoldable pub resend_loop : List Moment → Outgoing → Link → Outgoing × Link
resend_loop [] s l = (s, l)
resend_loop (m ∷ ms) s l =
    if l.done then (s, l) else elim (resend_tick m.at m.reconnecting m.paused m.paused_since s) [
      | idle t ↦ resend_loop ms t l
      | pause_timed_out ↦ (s, close_with_error pause_publication_timed_out l)
      | attempts_exceeded t ↦ (t, close_with_error resend_attempts_exceeded l)
      | resend frame t ↦ resend_loop ms t l
    ]

-- Ticks that follow each other by no more than `gap`, while the WebSocket stands and publication goes
-- on.
abbrev pub Ticking : ℕ → ℕ → List Moment → Type 0
Ticking gap seen [] = Unit {0}
Ticking gap seen (m ∷ ms) =
    (m.reconnecting ≡ false)
    × (m.paused ≡ false)
    × (seen ≤ m.at)
    × (m.at ≤ seen + gap)
    × Ticking gap m.at ms

-- The time of the last tick.
abbrev pub last_tick : ℕ → List Moment → ℕ
last_tick seen [] = seen
last_tick seen (m ∷ ms) = last_tick m.at ms

not_empty :
    (k : ℕ) (om : OutgoingMessage) (m : Messages)
    → lookup ℕ_discrete k m ≡ some om
    → is_empty m ≡ false
unfolding lookup is_empty
not_empty k om [] e = cc
not_empty k om (c ∷ m) e = refl

retry_cases :
    (s : Outgoing) (om : OutgoingMessage) (now : ℕ)
    → s.rto ≤ max_retransmission_timeout
    → om.resend_count ≤ max_resend_attempts
    → ((retry_oldest now om s ≡ idle s) × (now ≤ om.last_sent + max_retransmission_timeout))
      ⊎ ((retry_oldest now om s ≡ resend om.frame (resent now om s))
          × (om.resend_count < max_resend_attempts))
      ⊎ (retry_oldest now om s ≡ attempts_exceeded (resent om.last_sent om s))
unfolding retry_oldest effective_rto
retry_cases s om now short few = ground (arith, short, few)

module _ (s : Outgoing) (om : OutgoingMessage)
    (there : lookup ℕ_discrete s.oldest s.messages ≡ some om) (real : s.oldest ≢ minus_one) where
  resend_oldest_found : (now : ℕ) → resend_oldest now s ≡ retry_oldest now om s
  resend_oldest_found now =
      unfold resend_oldest in
      rw (==_ne s.oldest minus_one real, not_empty s.oldest om s.messages there, there)

  -- A tick waits for the timeout, writes the message again, or finds the attempts used up.
  tick_cases :
      (m : Moment)
      → m.reconnecting ≡ false
      → m.paused ≡ false
      → s.rto ≤ max_retransmission_timeout
      → om.resend_count ≤ max_resend_attempts
      → ((resend_tick m.at m.reconnecting m.paused m.paused_since s ≡ idle s)
          × (m.at ≤ om.last_sent + max_retransmission_timeout))
        ⊎ ((resend_tick m.at m.reconnecting m.paused m.paused_since s
              ≡ resend om.frame (resent m.at om s))
            × (om.resend_count < max_resend_attempts))
        ⊎ (resend_tick m.at m.reconnecting m.paused m.paused_since s
            ≡ attempts_exceeded (resent om.last_sent om s))
  unfolding resend_tick
  tick_cases m standing going short few =
      ground (arith, standing, going, resend_oldest_found m.at, retry_cases s om m.at short few)

lookup-resent :
    (now : ℕ) (om : OutgoingMessage) (s : Outgoing)
    → lookup ℕ_discrete s.oldest (resent now om s).messages
      ≡ some (record om { last_sent = now; resend_count = om.resend_count + 1 })
unfolding resent
lookup-resent now om s = ground (
  arith,
  lookup-put ℕ_discrete s.oldest s.oldest
      (record om { last_sent = now; resend_count = om.resend_count + 1 }) s.messages,
)

loop_tick :
    (m : Moment) (ms : List Moment) (s t : Outgoing) (l : Link)
    → l.done ≡ false
    → resend_tick m.at m.reconnecting m.paused m.paused_since s ≡ idle t
    → resend_loop (m ∷ ms) s l ≡ resend_loop ms t l
unfolding resend_loop
loop_tick m ms s t l d e = ground (arith, d, e)

loop_resend :
    (m : Moment) (ms : List Moment) (s t : Outgoing) (frame : Bytes) (l : Link)
    → l.done ≡ false
    → resend_tick m.at m.reconnecting m.paused m.paused_since s ≡ resend frame t
    → resend_loop (m ∷ ms) s l ≡ resend_loop ms t l
unfolding resend_loop
loop_resend m ms s t frame l d e = ground (arith, d, e)

loop_exceeded :
    (m : Moment) (ms : List Moment) (s t : Outgoing) (l : Link)
    → l.done ≡ false
    → resend_tick m.at m.reconnecting m.paused m.paused_since s ≡ attempts_exceeded t
    → resend_loop (m ∷ ms) s l ≡ (t, close_with_error resend_attempts_exceeded l)
unfolding resend_loop
loop_exceeded m ms s t l d e = ground (arith, d, e)

-- The adapter is closed, and for this reason where it had none.
pub record IsGivenUp (l k : Link) : Type 0 where
  pub closed : k.done ≡ true
  pub for_reason : l.close_reason ≡ none → k.close_reason ≡ some resend_attempts_exceeded

close-IsGivenUp :
    (l : Link) → l.done ≡ false → IsGivenUp l (close_with_error resend_attempts_exceeded l)
unfolding close_with_error close_adapter set_close_reason first_error
close-IsGivenUp l d = record { closed = ground (arith, d); for_reason = λ h. ground (arith, d, h) }

-- One attempt less is left.
fewer :
    (count span : ℕ)
    → count ≤ max_resend_attempts
    → (61 - count) * span ≡ span + (60 - count) * span
fewer count span h =
    let next : 61 - count ≡ suc (60 - count) = omega (arith, h) in
    ap (λ k. k * span) next ∙ omega arith

-- The time that the other attempts take is left behind one that is made in time.
spent :
    (count last gap seen at end : ℕ)
    → count < max_resend_attempts
    → seen ≤ last + max_retransmission_timeout
    → at ≤ seen + gap
    → last + (61 - count) * (max_retransmission_timeout + gap) < end
    → at + (61 - (count + 1)) * (max_retransmission_timeout + gap) < end
spent count last gap seen at end h due soon over =
    let more = fewer count (max_retransmission_timeout + gap) (omega (arith, h)) in
    let same : 61 - (count + 1) ≡ 60 - count = omega arith in
    rw same (omega (arith, more, due, soon, over))

-- An oldest message that is never acknowledged closes the adapter: where ticks follow each other by
-- no more than some gap, the WebSocket stands and publication goes on, and the message is in time
-- for its next attempt, one of the ticks finds the attempts used up, at the latest when for each
-- attempt that was left and one more the longest timeout and the gap have passed.
pub resend_loop_gives_up :
    (ms : List Moment) (s : Outgoing) (om : OutgoingMessage) (l : Link) (gap seen : ℕ)
    → lookup ℕ_discrete s.oldest s.messages ≡ some om
    → s.oldest ≢ minus_one
    → s.rto ≤ max_retransmission_timeout
    → l.done ≡ false
    → Ticking gap seen ms
    → seen ≤ om.last_sent + max_retransmission_timeout
    → om.resend_count ≤ max_resend_attempts
    → om.last_sent + (61 - om.resend_count) * (max_retransmission_timeout + gap) < last_tick seen ms
    → IsGivenUp l (resend_loop ms s l).1
resend_loop_gives_up [] s om l gap seen there real short d ticks due few over =
    absurd (omega (arith, due, over, fewer om.resend_count (max_retransmission_timeout + gap) few))
resend_loop_gives_up (m ∷ ms) s om l gap seen there real short d (standing, going, on, soon, ticks)
      due few over =
    elim (tick_cases s om there real m standing going short few) [
      | inl (e, early) ↦
          rw (loop_tick m ms s s l d e)
            (resend_loop_gives_up ms s om l gap m.at there real short d ticks early few over)
      | inr (inl (e, more)) ↦ rw (loop_resend m ms s (resent m.at om s) om.frame l d e) (
          resend_loop_gives_up ms (resent m.at om s)
            (record om { last_sent = m.at; resend_count = om.resend_count + 1 }) l gap m.at
            (unfold resent in lookup-resent m.at om s) (unfold resent in real)
            (unfold resent in short) d ticks (omega arith) (omega (arith, more))
            (spent om.resend_count om.last_sent gap seen m.at (last_tick m.at ms) more due soon
              over))
      | inr (inr e) ↦
          rw (loop_exceeded m ms s (resent om.last_sent om s) l d e) (close-IsGivenUp l d)
    ]
