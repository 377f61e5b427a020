-- ===== src/Adapter/Outgoing/Oldest.antt =====
-- The searches for the oldest unacknowledged sequence number: the full scan and the short one.
use session_proxy.Prelude.{
  ◌∙◌, ℕ, zero, suc, ◌+◌, ◌^◌, ◌<◌, ◌≤◌, ◌≡◌, refl, ◌⊎◌, inl, inr, List, [], ◌∷◌, none, some, arith,
  if◌then◌else◌, ℕ_discrete, Option-cases,
}
use mathlib.Core.Logic.{if_pos, if_neg}
use session_proxy.Prelude.Assoc.{lookup}
use session_proxy.Prelude.Int64.{Int64, slt, max_int64, minus_one}
use session_proxy.Adapter.Outgoing.{OutgoingMessage, present, min_key, scan, next_oldest}

abbrev pub Messages : Type 0
Messages = List (Int64 × OutgoingMessage)

-- Sequence numbers are counted up from 0, and stay far from the end of the range.
abbrev pub seq_bound : ℕ
seq_bound = 2 ^ 62

abbrev pub Bounded : Messages → Type 0
Bounded m = (k : ℕ) (om : OutgoingMessage) → lookup ℕ_discrete k m ≡ some om → k < seq_bound

-- A key that is there, below all others.
pub record IsLeast (o : ℕ) (m : Messages) : Type 0 where
  pub entry : OutgoingMessage
  pub there : lookup ℕ_discrete o m ≡ some entry
  pub below : (k : ℕ) (om : OutgoingMessage) → lookup ℕ_discrete k m ≡ some om → o ≤ k

-- -1 for no messages, else the least key.
pub data Front : ℕ → Messages → Type 0 where
  empty : {o : ℕ} → o ≡ minus_one → Front o []
  front : {o : ℕ} {e : Int64 × OutgoingMessage} {m : Messages} → IsLeast o (e ∷ m) → Front o (e ∷ m)

Bounded-tail :
    (k : ℕ) (om : OutgoingMessage) (m : Messages)
    → Bounded ((k, om) ∷ m)
    → (k < seq_bound) × Bounded m
unfolding lookup
Bounded-tail k om m b = (
  b k om (ground arith),
  λ j oj e. elim (ℕ_discrete k j) [
    | yes same ↦ ground (arith, b k om)
    | no other ↦ b j oj (ground (arith, e))
  ],
)

lesser : ℕ → ℕ → ℕ
lesser k least = if slt k least then k else least

lesser_lem :
    (k least : ℕ) → k < 2 ^ 63 → least < 2 ^ 63 → (lesser k least ≤ least) × (lesser k least ≤ k)
unfolding lesser
lesser_lem k least h h' = ground arith

-- What the scan from `least` down gives: no more than `least` and than any key.
min_key-le :
    (least : ℕ) (m : Messages)
    → least < 2 ^ 63
    → Bounded m
    → (min_key least m ≤ least)
      × ((k : ℕ) (om : OutgoingMessage) → lookup ℕ_discrete k m ≡ some om → min_key least m ≤ k)
unfolding min_key lookup lesser
min_key-le least [] h b = (omega arith, λ k om e. absurd (ground (arith, e)))
min_key-le least ((j, oj) ∷ m) h b =
    let (small, rest) = Bounded-tail j oj m b in
    let (a, c) = lesser_lem j least (omega arith) h in
    let (under, below) = min_key-le (lesser j least) m (omega arith) rest in
    (omega arith, λ k om e. ground (arith, e, below k om))

abbrev Found : ℕ → Messages → Type 0
Found k m = (om : OutgoingMessage) × (lookup ℕ_discrete k m ≡ some om)

Found-cons : (k j : ℕ) (oj : OutgoingMessage) (m : Messages) → Found k m → Found k ((j, oj) ∷ m)
unfolding lookup
Found-cons k j oj m (om, e) = elim (ℕ_discrete j k) [
  | yes same ↦ (oj, rw (if_pos _ same))
  | no other ↦ (om, rw (if_neg _ other) e)
]

Found-head : (j : ℕ) (oj : OutgoingMessage) (m : Messages) → Found j ((j, oj) ∷ m)
unfolding lookup
Found-head j oj m = (oj, rw (if_pos _ refl))

cases-cons :
    (least next j : ℕ) (oj : OutgoingMessage) (m : Messages)
    → (next ≡ j) ⊎ (next ≡ least)
    → (min_key next m ≡ next) ⊎ Found (min_key next m) m
    → (min_key next m ≡ least) ⊎ Found (min_key next m) ((j, oj) ∷ m)
cases-cons least next j oj m (inl e) (inl s) = inr (rw (s, e) (Found-head j oj m))
cases-cons least next j oj m (inr e) (inl s) = inl (s ∙ e)
cases-cons least next j oj m _ (inr f) = inr (Found-cons (min_key next m) j oj m f)

lesser_cases : (k least : ℕ) → (lesser k least ≡ k) ⊎ (lesser k least ≡ least)
unfolding lesser
lesser_cases k least = ground arith

min_key_cases : (least : ℕ) (m : Messages) → (min_key least m ≡ least) ⊎ Found (min_key least m) m
unfolding min_key lesser
min_key_cases least [] = inl refl
min_key_cases least ((j, oj) ∷ m) =
    cases-cons least (lesser j least) j oj m (lesser_cases j least)
      (min_key_cases (lesser j least) m)

-- The full scan finds the least key of a nonempty map.
pub min_key-IsLeast :
    (k : ℕ) (om : OutgoingMessage) (m : Messages)
    → Bounded m
    → lookup ℕ_discrete k m ≡ some om
    → IsLeast (min_key max_int64 m) m
min_key-IsLeast k om m b e = elim (min_key_cases max_int64 m) [
  | inl top ↦ absurd (omega (arith, (min_key-le max_int64 m (omega arith) b).1 k om e, b k om e))
  | inr (entry, there) ↦ record {
    entry = entry;
    there = there;
    below = (min_key-le max_int64 m (omega arith) b).1;
  }
]

-- The short scan passes no key.
scan_skips :
    (rounds oldest : ℕ) (m : Messages) (k : ℕ) (om : OutgoingMessage)
    → oldest + rounds < 2 ^ 63
    → lookup ℕ_discrete k m ≡ some om
    → oldest < k
    → scan rounds oldest m ≤ k
unfolding scan
scan_skips zero oldest m k om fits e h = omega arith
scan_skips (suc rounds) oldest m k om fits e h =
    ground (arith, scan_skips rounds (oldest + 1) m k om)

next_oldest_gone :
    (oldest : ℕ) (m : Messages)
    → lookup ℕ_discrete (scan 1024 oldest m) m ≡ none
    → next_oldest oldest m ≡ min_key max_int64 m
unfolding next_oldest present
next_oldest_gone oldest m e = ground (arith, e)

next_oldest_there :
    (oldest : ℕ) (om : OutgoingMessage) (m : Messages)
    → lookup ℕ_discrete (scan 1024 oldest m) m ≡ some om
    → next_oldest oldest m ≡ scan 1024 oldest m
unfolding next_oldest present
next_oldest_there oldest om m e = ground (arith, e)

-- The pointer of ackOutgoing: the least key behind the acknowledged one, by either scan.
pub next_oldest-IsLeast :
    (oldest k : ℕ) (om : OutgoingMessage) (m : Messages)
    → oldest < seq_bound
    → Bounded m
    → ((j : ℕ) (oj : OutgoingMessage) → lookup ℕ_discrete j m ≡ some oj → oldest < j)
    → lookup ℕ_discrete k m ≡ some om
    → IsLeast (next_oldest oldest m) m
next_oldest-IsLeast oldest k om m fits b above e =
    elim (Option-cases (lookup ℕ_discrete (scan 1024 oldest m) m)) [
      | inl gone ↦ rw (next_oldest_gone oldest m gone) (min_key-IsLeast k om m b e)
      | inr (entry, there) ↦ rw (next_oldest_there oldest entry m there) (record {
        entry = entry;
        there = there;
        below = λ j oj f. scan_skips 1024 oldest m j oj (omega arith) f (above j oj f);
      })
    ]
