-- ===== src/Adapter/Outgoing/Window/Growth.antt =====
-- addOutgoing of internal/protocol/adapter.go keeps the window's invariant.
use session_proxy.Prelude.{
  ℕ, ◌+◌, ◌^◌, ◌<◌, ◌≤◌, ◌≡◌, ◌⊎◌, inl, inr, Bool, false, [], ◌∷◌, none, arith, length, ℕ_discrete,
}
use session_proxy.Prelude.Assoc.{lookup, delete, delete_missing, put, lookup-put, put-Distinct}
use session_proxy.Prelude.Bytes.{Bytes}
use session_proxy.Adapter.Outgoing.{
  OutgoingMessage, Outgoing, added, add_outgoing, new_oldest, sent_at, track,
}
use session_proxy.Adapter.Outgoing.Oldest.{
  Messages, seq_bound, Bounded, IsLeast, Front, empty, front,
}
use session_proxy.Adapter.Outgoing.Window.{Consistent}

new_oldest-le :
    (seq o : ℕ)
    → seq < seq_bound
    → o < seq_bound
    → ((new_oldest seq o ≡ seq) ⊎ (new_oldest seq o ≡ o))
      × (new_oldest seq o ≤ seq)
      × (new_oldest seq o ≤ o)
unfolding new_oldest
new_oldest-le seq o h k = ground arith

put-IsLeast :
    (seq o : ℕ) (om : OutgoingMessage) (m : Messages)
    → seq < seq_bound
    → o < seq_bound
    → IsLeast o m
    → IsLeast (new_oldest seq o) (put ℕ_discrete seq om m)
put-IsLeast seq o om m h k l =
    let (which, a, b) = new_oldest-le seq o h k in
    elim which [
      | inl e ↦ record {
        entry = om;
        there = ground (arith, lookup-put ℕ_discrete seq (new_oldest seq o) om m);
        below = λ j x f. ground (arith, f, lookup-put ℕ_discrete seq j om m, l.below j x);
      }
      | inr e ↦ elim (ℕ_discrete seq o) [
        | yes same ↦ record {
          entry = om;
          there = ground (arith, lookup-put ℕ_discrete seq (new_oldest seq o) om m);
          below = λ j x f. ground (arith, f, lookup-put ℕ_discrete seq j om m, l.below j x);
        }
        | no other ↦ record {
          entry = l.entry;
          there = ground (arith, l.there, lookup-put ℕ_discrete seq (new_oldest seq o) om m);
          below = λ j x f. ground (arith, f, lookup-put ℕ_discrete seq j om m, l.below j x);
        }
      ]
    ]

put-Front :
    (seq o : ℕ) (om : OutgoingMessage) (m : Messages)
    → seq < seq_bound
    → Bounded m
    → Front o m
    → Front (new_oldest seq o) (put ℕ_discrete seq om m)
unfolding put delete
put-Front seq o om [] fits b (empty e) =
    let least : IsLeast (new_oldest seq o) ((seq, om) ∷ []) =
      unfold lookup new_oldest in
      record { entry = om; there = ground (arith, e); below = λ j x f. ground (arith, e, f) } in
    front least
put-Front seq o om (c ∷ m) fits b (front l) =
    front (put-IsLeast seq o om (c ∷ m) fits (b o l.entry l.there) l)

track-Consistent :
    (now seq : ℕ) (id frame : Bytes) (s : Outgoing)
    → Consistent s
    → seq < seq_bound
    → lookup ℕ_discrete seq s.messages ≡ none
    → s.bytes + length frame ≤ s.max_bytes
    → Consistent (track now seq id frame s)
unfolding track
track-Consistent now seq id frame s v fits fresh room = record {
  distinct = put-Distinct ℕ_discrete seq _ s.messages v.distinct;
  bounded = λ k x f.
      ground
        (arith, f, lookup-put ℕ_discrete seq k (sent_at now id frame) s.messages, v.bounded k x);
  counted =
      unfold put in
      rw (delete_missing ℕ_discrete seq s.messages fresh) (omega (arith, v.counted, v.limit));
  window = omega (arith, v.limit);
  limit = v.limit;
  oldest_front = put-Front seq s.oldest _ s.messages fits v.bounded v.oldest_front;
}

add_outgoing-added :
    (now : ℕ) (late : Bool) (seq : ℕ) (id frame : Bytes) (s t : Outgoing)
    → s.bytes ≤ 2 ^ 30
    → s.max_bytes ≤ 2 ^ 30
    → length frame < 2 ^ 30
    → add_outgoing now late seq id frame s ≡ added t
    → (t ≡ track now seq id frame s) × (s.bytes + length frame ≤ s.max_bytes) × (s.closed ≡ false)
unfolding add_outgoing
add_outgoing-added now late seq id frame s t h k l e = ground arith

-- What addOutgoing accepts under a new number keeps the invariant, the limit on unacknowledged
-- bytes with it, and only an open adapter accepts.
pub add_outgoing-Consistent :
    (now : ℕ) (late : Bool) (seq : ℕ) (id frame : Bytes) (s t : Outgoing)
    → Consistent s
    → seq < seq_bound
    → lookup ℕ_discrete seq s.messages ≡ none
    → length frame < 2 ^ 30
    → add_outgoing now late seq id frame s ≡ added t
    → Consistent t × (s.closed ≡ false)
add_outgoing-Consistent now late seq id frame s t v fits fresh small e =
    let (same, room, opened) =
      add_outgoing-added now late seq id frame s t (omega (arith, v.window, v.limit)) v.limit small
        e in
    rw same (track-Consistent now seq id frame s v fits fresh room, opened)
