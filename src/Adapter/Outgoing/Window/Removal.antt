-- ===== src/Adapter/Outgoing/Window/Removal.antt =====
-- ackOutgoing and dropOutgoing of internal/protocol/adapter.go keep the window's invariant.
use session_proxy.Prelude.{
  ℕ, ◌<◌, ◌≡◌, ◌≢◌, refl, inl, inr, [], ◌∷◌, none, some, ite, arith, ==_iff, ==_ne, length,
  ℕ_discrete, Option-cases,
}
use mathlib.Core.Logic.{if_pos, if_neg}
use session_proxy.Prelude.Assoc.{lookup, delete, lookup-delete, delete-Distinct, total-delete}
use session_proxy.Prelude.Bytes.{Bytes, bytes_discrete}
use session_proxy.Prelude.Int64.{sub64}
use session_proxy.Adapter.Outgoing.{
  OutgoingMessage, Outgoing, oldest_after_ack, oldest_after_drop, remove_acked, ack_outgoing,
  drop_outgoing, remove_dropped,
}
use session_proxy.Adapter.Outgoing.Oldest.{
  Messages, seq_bound, Bounded, IsLeast, Front, empty, front, min_key-IsLeast, next_oldest-IsLeast,
}
use session_proxy.Adapter.Outgoing.Window.{sizes, Consistent, Front-IsLeast, first_key}

-- What is left when `seq` is taken out of `m`, whose least key is `o`.
module _ (seq o : ℕ) (m : Messages) (b : Bounded m) (least : IsLeast o m) where
  abbrev Remains : Messages → Type 0
  Remains left = left ≡ delete ℕ_discrete seq m

  lookup-left :
      (left : Messages)
      → Remains left
      → (k : ℕ) → lookup ℕ_discrete k left ≡ ite (ℕ_discrete seq k) none (lookup ℕ_discrete k m)
  lookup-left left e k = rw e (lookup-delete ℕ_discrete seq k m)

  left-Bounded : (left : Messages) → Remains left → Bounded left
  left-Bounded left e k om f = b k om (ground (arith, lookup-left left e k, f))

  left_above :
      (left : Messages)
      → Remains left
      → seq ≡ o
      → (k : ℕ) (om : OutgoingMessage) → lookup ℕ_discrete k left ≡ some om
      → o < k
  left_above left e same k om f = ground (arith, lookup-left left e k, f, least.below k om)

  -- The least key stays where another one goes.
  left_other : (left : Messages) → Remains left → seq ≢ o → IsLeast o left
  left_other left e ne = record {
    entry = least.entry;
    there = ground (arith, lookup-left left e o, least.there);
    below = λ k om f. least.below k om (ground (arith, lookup-left left e k, f));
  }

  o_bounded : o < seq_bound
  o_bounded = b o least.entry least.there

  ack-Front : (left : Messages) → Remains left → Front (oldest_after_ack seq o left) left
  unfolding oldest_after_ack
  ack-Front [] e = empty refl
  ack-Front (c ∷ left) e = front (elim (ℕ_discrete seq o) [
    | yes same ↦
        let (om, f) = first_key c left in
        rw ((==_iff seq o).1 same) (
          next_oldest-IsLeast o c.0 om (c ∷ left) o_bounded (left-Bounded (c ∷ left) e)
            (left_above (c ∷ left) e same) f)
    | no other ↦ rw (==_ne seq o other) (left_other (c ∷ left) e other)
  ])

  drop-Front : (left : Messages) → Remains left → Front (oldest_after_drop seq o left) left
  unfolding oldest_after_drop
  drop-Front [] e = empty refl
  drop-Front (c ∷ left) e = front (elim (ℕ_discrete seq o) [
    | yes same ↦
        let (om, f) = first_key c left in
        rw ((==_iff seq o).1 same) (min_key-IsLeast c.0 om (c ∷ left) (left-Bounded (c ∷ left) e) f)
    | no other ↦ rw (==_ne seq o other) (left_other (c ∷ left) e other)
  ])

-- The bytes that go with a message were counted.
sub64-total :
    (s : Outgoing) (seq : ℕ) (om : OutgoingMessage)
    → Consistent s
    → lookup ℕ_discrete seq s.messages ≡ some om
    → sub64 s.bytes (length om.frame) ≡ sizes (delete ℕ_discrete seq s.messages)
sub64-total s seq om v e = omega (
  arith,
  v.counted,
  v.window,
  v.limit,
  total-delete ℕ_discrete (λ (x : OutgoingMessage). length x.frame) seq om s.messages v.distinct e,
)

remove_acked-Consistent :
    (now seq : ℕ) (om : OutgoingMessage) (s : Outgoing)
    → Consistent s
    → lookup ℕ_discrete seq s.messages ≡ some om
    → Consistent (remove_acked now seq om s)
unfolding remove_acked
remove_acked-Consistent now seq om s v e = record {
  distinct = delete-Distinct ℕ_discrete seq s.messages v.distinct;
  bounded =
      left-Bounded seq s.oldest s.messages v.bounded (Front-IsLeast seq om v.oldest_front e) _ refl;
  counted = sub64-total s seq om v e;
  window = omega (
    arith,
    v.counted,
    v.window,
    v.limit,
    sub64-total s seq om v e,
    total-delete ℕ_discrete (λ (x : OutgoingMessage). length x.frame) seq om s.messages v.distinct
        e,
  );
  limit = v.limit;
  oldest_front =
      ack-Front seq s.oldest s.messages v.bounded (Front-IsLeast seq om v.oldest_front e) _ refl;
}

remove_dropped-Consistent :
    (seq : ℕ) (om : OutgoingMessage) (s : Outgoing)
    → Consistent s
    → lookup ℕ_discrete seq s.messages ≡ some om
    → Consistent (remove_dropped seq om s)
unfolding remove_dropped
remove_dropped-Consistent seq om s v e = record {
  distinct = delete-Distinct ℕ_discrete seq s.messages v.distinct;
  bounded =
      left-Bounded seq s.oldest s.messages v.bounded (Front-IsLeast seq om v.oldest_front e) _ refl;
  counted = sub64-total s seq om v e;
  window = omega (
    arith,
    v.counted,
    v.window,
    v.limit,
    sub64-total s seq om v e,
    total-delete ℕ_discrete (λ (x : OutgoingMessage). length x.frame) seq om s.messages v.distinct
        e,
  );
  limit = v.limit;
  oldest_front =
      drop-Front seq s.oldest s.messages v.bounded (Front-IsLeast seq om v.oldest_front e) _ refl;
}

-- Acknowledging a message, matched or not, keeps the window's invariant.
pub ack_outgoing-Consistent :
    (now seq : ℕ) (id : Bytes) (s : Outgoing)
    → Consistent s
    → Consistent (ack_outgoing now seq id s)
unfolding ack_outgoing
ack_outgoing-Consistent now seq id s v = elim (Option-cases (lookup ℕ_discrete seq s.messages)) [
  | inl e ↦ rw (e, ack_outgoing) v
  | inr (om, e) ↦ elim (bytes_discrete om.msg_id id) [
    | yes same ↦ rw (e, ack_outgoing, if_pos _ same) (remove_acked-Consistent now seq om s v e)
    | no other ↦ rw (e, ack_outgoing, if_neg _ other) v
  ]
]

-- So does taking one back that could not be written.
pub drop_outgoing-Consistent :
    (seq : ℕ) (id : Bytes) (s : Outgoing) → Consistent s → Consistent (drop_outgoing seq id s)
unfolding drop_outgoing
drop_outgoing-Consistent seq id s v = elim (Option-cases (lookup ℕ_discrete seq s.messages)) [
  | inl e ↦ rw (e, drop_outgoing) v
  | inr (om, e) ↦ elim (bytes_discrete om.msg_id id) [
    | yes same ↦ rw (e, drop_outgoing, if_pos _ same) (remove_dropped-Consistent seq om s v e)
    | no other ↦ rw (e, drop_outgoing, if_neg _ other) v
  ]
]
