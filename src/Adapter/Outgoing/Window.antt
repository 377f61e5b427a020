-- ===== src/Adapter/Outgoing/Window.antt =====
-- The invariant of the window of unacknowledged messages of internal/protocol/adapter.go.
pub mod Removal
pub mod Growth
pub mod Runs
use session_proxy.Prelude.{
  ◌∙◌, ℕ, zero, suc, ◌+◌, ◌-◌, ◌^◌, ◌<◌, ◌≤◌, ◌≡◌, ◌≢◌, refl, sym, ap, ◌⊎◌, inl, inr, Bool, true,
  false, List, [], ◌∷◌, Option, none, some, ite, arith, ltb, leb, ◌==◌, ==_refl, ==_iff, ==_ne,
  if◌then◌else◌, length, ℕ_discrete, Option-cases, Bool-cases,
}
use mathlib.Core.Logic.{if_pos, if_neg}
use session_proxy.Prelude.Assoc.{
  lookup, delete, delete_missing, put, Distinct, total, lookup-delete, lookup-put, delete-Distinct,
  put-Distinct, total-delete,
}
use session_proxy.Prelude.Bytes.{Bytes, bytes_discrete}
use session_proxy.Prelude.Int64.{Int64, slt, inc, add64, sub64, max_int64, minus_one}
use session_proxy.Adapter.Outgoing.{
  OutgoingMessage, Outgoing, Added, added, closed_pipe, timed_out, wait, oldest_after_ack,
  oldest_after_drop, remove_acked, ack_outgoing, drop_outgoing, remove_dropped, add_outgoing,
  new_oldest, sent_at, track, mark_outgoing_for_retransmit, mark_all, min_key, next_oldest, initial,
}
use session_proxy.Adapter.Outgoing.Oldest.{
  Messages, seq_bound, Bounded, IsLeast, Front, empty, front, min_key-IsLeast, next_oldest-IsLeast,
}

abbrev pub sizes : Messages → ℕ
sizes = total ℕ_discrete (λ (om : OutgoingMessage). length om.frame)

pub record Consistent (s : Outgoing) : Type 0 where
  pub distinct : Distinct ℕ_discrete s.messages
  pub bounded : Bounded s.messages
  pub counted : s.bytes ≡ sizes s.messages
  pub window : s.bytes ≤ s.max_bytes
  pub limit : s.max_bytes ≤ 2 ^ 30
  pub oldest_front : Front s.oldest s.messages

first_key :
    (e : Int64 × OutgoingMessage) (m : Messages)
    → (om : OutgoingMessage) × (lookup ℕ_discrete e.0 (e ∷ m) ≡ some om)
unfolding lookup
first_key (k, om) m = (om, rw (if_pos _ refl))

pub Front-IsLeast :
    {o : ℕ} {m : Messages} (k : ℕ) (om : OutgoingMessage)
    → Front o m
    → lookup ℕ_discrete k m ≡ some om
    → IsLeast o m
unfolding lookup
Front-IsLeast k om (empty e) f = absurd (ground (arith, f))
Front-IsLeast k om (front l) f = l
