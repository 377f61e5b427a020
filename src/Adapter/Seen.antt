-- ===== src/Adapter/Seen.antt =====
-- markMessageSeen of internal/protocol/adapter.go: the ids of the messages that came, and the
-- eviction of the one with the lowest sequence number.
use session_proxy.Prelude.{
  ℕ, ◌≤◌, ◌<◌, ◌≡◌, refl, Bool, true, false, List, [], ◌∷◌, none, some, ite, arith, leb, if_both,
  if◌then◌else◌, length, replicate, All, All-imp, Option-cases, inl, inr,
}
use session_proxy.Prelude.Assoc.{
  lookup, delete, put, length-delete-le, length-delete-lt, lookup-put,
}
use session_proxy.Prelude.Bytes.{Bytes, bytes_discrete}
use session_proxy.Prelude.Int64.{Int64, slt, max_int64}

abbrev pub max_seen_msg_ids : ℕ
max_seen_msg_ids = 1000

-- seenMsgIds
abbrev pub Seen : Type 0
Seen = List (Bytes × Int64)

-- The loop for the entry with the lowest sequence number.
unfoldable pub oldest_seen : Bytes × Int64 → Seen → Bytes × Int64
oldest_seen (id, seq) [] = (id, seq)
oldest_seen (id, seq) ((k, v) ∷ seen) = oldest_seen (if slt v seq then (k, v) else (id, seq)) seen

unfoldable pub evict_oldest : Seen → Seen
unfolding oldest_seen
evict_oldest seen =
    if leb max_seen_msg_ids (length seen)
    then delete bytes_discrete (oldest_seen (replicate 16 0, max_int64) seen).0 seen
    else seen

-- markMessageSeen, which says whether the message is a duplicate.
unfoldable pub mark_message_seen : Bytes → Int64 → Seen → Bool × Seen
unfolding evict_oldest
mark_message_seen id seq seen = elim (lookup bytes_discrete id seen) [
  | some old ↦ (true, seen)
  | none ↦ (false, put bytes_discrete id seq (evict_oldest seen))
]

-- No sequence number is the largest int64, where the search starts.
abbrev pub BelowMax : Seen → Type 0
BelowMax seen = All (λ e. slt e.1 max_int64 ≡ true) seen

-- The set keeps its limit, and its numbers are below the largest.
pub record Limited (seen : Seen) : Type 0 where
  pub few : length seen ≤ max_seen_msg_ids
  pub below : BelowMax seen

IsKey : Seen → Bytes → Type 0
IsKey seen id = (seq : Int64) × (lookup bytes_discrete id seen ≡ some seq)

cons-IsKey : (e : Bytes × Int64) (seen : Seen) (id : Bytes) → IsKey seen id → IsKey (e ∷ seen) id
unfolding IsKey lookup
cons-IsKey (k, v) seen id (seq, f) = elim (bytes_discrete k id) [
  | yes same ↦ (v, ground (arith, same))
  | no other ↦ (seq, ground (arith, other, f))
]

All-IsKey : (seen : Seen) → All (λ e. IsKey seen e.0) seen
unfolding IsKey lookup
All-IsKey [] = tt
All-IsKey ((k, v) ∷ seen) =
    ((v, ground arith), All-imp _ _ seen (λ e h. cons-IsKey (k, v) seen e.0 h) (All-IsKey seen))

oldest_seen-All :
    (P : Bytes → Type 0) (seen : Seen) (start : Bytes × Int64)
    → P start.0
    → All (λ e. P e.0) seen
    → P (oldest_seen start seen).0
unfolding oldest_seen
oldest_seen-All P [] start h all = h
oldest_seen-All P ((k, v) ∷ seen) start h all =
    oldest_seen-All P seen (if slt v start.1 then (k, v) else start)
      (if_both {A = Bytes × Int64} (λ r. P r.0) (slt v start.1) _ _ (λ t. all.0) (λ f. h)) all.1

-- What is found is in the set.
oldest_seen-IsKey :
    (e : Bytes × Int64) (seen : Seen) (zero_id : Bytes)
    → BelowMax (e ∷ seen)
    → IsKey (e ∷ seen) (oldest_seen (zero_id, max_int64) (e ∷ seen)).0
unfolding oldest_seen
oldest_seen-IsKey (k, v) seen zero_id b =
    rw (b.0, oldest_seen)
      (oldest_seen-All (IsKey ((k, v) ∷ seen)) seen (k, v) (All-IsKey ((k, v) ∷ seen)).0
        (All-IsKey ((k, v) ∷ seen)).1)

delete-BelowMax :
    (id : Bytes) (seen : Seen) → BelowMax seen → BelowMax (delete bytes_discrete id seen)
unfolding delete
delete-BelowMax id [] b = tt
delete-BelowMax id ((k, v) ∷ seen) b =
    elim (bytes_discrete k id)
      as (λ d.
        BelowMax (ite d (delete bytes_discrete id seen) ((k, v) ∷ delete bytes_discrete id seen))) [
          | yes same ↦ delete-BelowMax id seen b.1
          | no other ↦ (b.0, delete-BelowMax id seen b.1)
        ]

evict_oldest-BelowMax : (seen : Seen) → BelowMax seen → BelowMax (evict_oldest seen)
unfolding evict_oldest
evict_oldest-BelowMax seen b =
    if_both BelowMax (leb max_seen_msg_ids (length seen))
      (delete bytes_discrete (oldest_seen (replicate 16 0, max_int64) seen).0 seen) seen
      (λ t. delete-BelowMax (oldest_seen (replicate 16 0, max_int64) seen).0 seen b) λ f. b

evict_oldest-lt : (seen : Seen) → Limited seen → length (evict_oldest seen) < max_seen_msg_ids
unfolding evict_oldest IsKey
evict_oldest-lt [] v = omega arith
evict_oldest-lt (e ∷ seen) v =
    if_both (λ (s : Seen). length s < max_seen_msg_ids) (leb max_seen_msg_ids (length (e ∷ seen))) _
      _
      (λ t.
        let (seq, f) = oldest_seen-IsKey e seen (replicate 16 0) v.below in
        omega (arith, length-delete-lt bytes_discrete _ seq (e ∷ seen) f, v.few))
      λ f. ground (arith, f)

mark_message_seen-Limited :
    (id : Bytes) (seq : Int64) (seen : Seen)
    → slt seq max_int64 ≡ true
    → Limited seen
    → Limited (mark_message_seen id seq seen).1
unfolding mark_message_seen put
mark_message_seen-Limited id seq seen h v = elim (Option-cases (lookup bytes_discrete id seen)) [
  | inr (old, e) ↦ rw (e, mark_message_seen) v
  | inl e ↦
      rw (e, mark_message_seen)
        (record {
          few = omega (
            arith,
            length-delete-le bytes_discrete id (evict_oldest seen),
            evict_oldest-lt seen v,
          );
          below = (h, delete-BelowMax id (evict_oldest seen) (evict_oldest-BelowMax seen v.below));
        })
]

marked-IsKey :
    (id : Bytes) (seq : Int64) (seen : Seen)
    → (old : Int64) × (lookup bytes_discrete id (mark_message_seen id seq seen).1 ≡ some old)
unfolding mark_message_seen
marked-IsKey id seq seen = elim (Option-cases (lookup bytes_discrete id seen)) [
  | inr (old, e) ↦ (old, rw (e, mark_message_seen) e)
  | inl e ↦ (
    seq,
    rw (e, mark_message_seen)
        (ground (arith, lookup-put bytes_discrete id id seq (evict_oldest seen))),
  )
]

mark_found :
    (id : Bytes) (seq old : Int64) (seen : Seen)
    → lookup bytes_discrete id seen ≡ some old
    → (mark_message_seen id seq seen).0 ≡ true
unfolding mark_message_seen
mark_found id seq old seen e = rw (e, mark_message_seen) refl

mark_message_seen_twice :
    (id : Bytes) (seq again : Int64) (seen : Seen)
    → (mark_message_seen id again (mark_message_seen id seq seen).1).0 ≡ true
mark_message_seen_twice id seq again seen =
    let (old, e) = marked-IsKey id seq seen in mark_found id again old _ e

-- Marking a message keeps the set at its limit of ids, as long as no sequence number is the largest
-- int64, and makes its id a duplicate when it comes again, whether it was one before or not and
-- whatever was evicted for it.
pub mark_message_seen_keeps :
    (id : Bytes) (seq again : Int64) (seen : Seen)
    → slt seq max_int64 ≡ true
    → Limited seen
    → Limited (mark_message_seen id seq seen).1
      × ((mark_message_seen id again (mark_message_seen id seq seen).1).0 ≡ true)
mark_message_seen_keeps id seq again seen h v =
    (mark_message_seen-Limited id seq seen h v, mark_message_seen_twice id seq again seen)
