-- ===== src/Adapter/Reorder/Order.antt =====
-- The loop of processBufferedMessages ends with the next message missing, and one arrival keeps
-- the reordering state in step with what has arrived.
use session_proxy.Prelude.{
  ℕ, zero, suc, ◌+◌, ◌<◌, ◌≤◌, ◌≡◌, ◌≢◌, ap, ◌⊎◌, inl, inr, Bool, true, false, ◌||◌, List, [], ◌∷◌,
  ◌++◌, append-nil, none, some, arith, ◌==◌, ==_refl, if◌then◌else◌, length, ℕ_discrete,
  Option-cases,
}
use session_proxy.Prelude.Assoc.{
  lookup, delete, put, lookup_empty, lookup-delete, lookup-put, length-delete-lt,
}
use session_proxy.Prelude.Bytes.{Bytes}
use session_proxy.Prelude.Int64.{Int64, max_int64}
use session_proxy.Message.{AgentMessage, payload_type_output}
use session_proxy.Adapter.Reorder.{Reorder, process_message, advance, take_buffered, drain}

abbrev pub Missing : Reorder → Type 0
Missing s = lookup ℕ_discrete s.expected s.buffer ≡ none

buffer-take_buffered :
    (msg : AgentMessage) (s : Reorder)
    → (take_buffered msg s).buffer ≡ delete ℕ_discrete s.expected s.buffer
unfolding take_buffered
buffer-take_buffered msg s = ground arith

-- With a round for each entry of the buffer, the loop stops because the next message is missing.
pub drain-Missing : (fuel : ℕ) (s : Reorder) → length s.buffer ≤ fuel → Missing (drain fuel s)
unfolding drain
drain-Missing zero s h = lookup_empty ℕ_discrete s.expected s.buffer h
drain-Missing (suc fuel) s h = elim (Option-cases (lookup ℕ_discrete s.expected s.buffer)) [
  | inl e ↦ rw (e, drain) e
  | inr (msg, e) ↦
      rw (e, drain)
        (drain-Missing fuel (take_buffered msg s) (
          omega (
            arith,
            ap length (buffer-take_buffered msg s),
            length-delete-lt ℕ_discrete s.expected msg s.buffer e,
          )))
]

abbrev pub contains : ℕ → List ℕ → Bool
contains n [] = false
contains n (m ∷ ms) = (n == m) || contains n ms

-- The bytes that a message brings to the stream: control payloads bring none.
abbrev pub content : AgentMessage → Bytes
content msg = if msg.payload_type == payload_type_output then msg.payload else []

module _ (source : ℕ → AgentMessage) where
  -- The payloads of `count` messages from `start` on, in order.
  abbrev pub span : ℕ → ℕ → Bytes
  span start zero = []
  span start (suc count) = span start count ++ content (source (start + count))

  module _ (start : ℕ) where
    -- Delivered: an unbroken run of what arrived. Every other arrival waits in the buffer.
    pub record InStep (arrived : List ℕ) (s : Reorder) : Type 0 where
      pub writer : s.writer_open ≡ true
      pub count : ℕ
      pub position : s.expected ≡ start + count
      pub delivered : s.stream ≡ span start count
      pub small : (i : ℕ) → contains i arrived ≡ true → i < max_int64
      pub in_range : s.expected ≤ max_int64
      pub passed : (i : ℕ) → start ≤ i → i < s.expected → contains i arrived ≡ true
      pub held :
          (i : ℕ) (msg : AgentMessage)
          → lookup ℕ_discrete i s.buffer ≡ some msg
          → (msg ≡ source i) × (contains i arrived ≡ true)
      pub kept :
          (i : ℕ)
          → contains i arrived ≡ true
          → start ≤ i
          → (i < s.expected) ⊎ (lookup ℕ_discrete i s.buffer ≡ some (source i))

    -- Delivering the next message. A buffer that loses no other entry may take its place.
    deliver-InStep :
        (arrived : List ℕ) (s : Reorder) (b : List (Int64 × AgentMessage))
        → InStep arrived s
        → contains s.expected arrived ≡ true
        → ((i : ℕ) (msg : AgentMessage)
            → lookup ℕ_discrete i b ≡ some msg
            → lookup ℕ_discrete i s.buffer ≡ some msg)
        → ((i : ℕ) → s.expected ≢ i → lookup ℕ_discrete i b ≡ lookup ℕ_discrete i s.buffer)
        → InStep arrived (advance (process_message (source s.expected) (record s { buffer = b })))
    unfolding advance process_message
    deliver-InStep arrived s b v here fewer others = record {
      writer = ground (arith, v.writer);
      count = suc v.count;
      position = ground (arith, v.position, v.in_range, v.small s.expected here);
      delivered = ground (arith, v.delivered, v.position, v.writer, append-nil s.stream);
      small = v.small;
      in_range = ground (arith, v.small s.expected here);
      passed = λ i low high. ground (arith, v.small s.expected here, v.passed i low);
      held = λ i msg e. v.held i msg (fewer i msg (ground (arith, e)));
      kept = λ i e low. ground (arith, v.kept i e low, v.small s.expected here, others i);
    }

    take_buffered-InStep :
        (arrived : List ℕ) (s : Reorder) (msg : AgentMessage)
        → InStep arrived s
        → lookup ℕ_discrete s.expected s.buffer ≡ some msg
        → InStep arrived (take_buffered msg s)
    unfolding take_buffered
    take_buffered-InStep arrived s msg v e =
        let (same, here) = v.held s.expected msg e in
        rw same (
          deliver-InStep arrived s (delete ℕ_discrete s.expected s.buffer) v here
            (λ i m f. ground (arith, lookup-delete ℕ_discrete s.expected i s.buffer, f))
            (λ i ne. ground (arith, lookup-delete ℕ_discrete s.expected i s.buffer)))

    pub drain-InStep :
        (fuel : ℕ) (arrived : List ℕ) (s : Reorder)
        → InStep arrived s
        → InStep arrived (drain fuel s)
    unfolding drain
    drain-InStep zero arrived s v = v
    drain-InStep (suc fuel) arrived s v =
        elim (Option-cases (lookup ℕ_discrete s.expected s.buffer)) [
          | inl e ↦ rw (e, drain) v
          | inr (msg, e) ↦
              rw (e, drain)
                (drain-InStep fuel arrived (take_buffered msg s)
                  (take_buffered-InStep arrived s msg v e))
        ]

    -- An arrival that was delivered before changes nothing.
    pub old-InStep :
        (n : ℕ) (arrived : List ℕ) (s : Reorder)
        → n < s.expected
        → InStep arrived s
        → InStep (n ∷ arrived) s
    old-InStep n arrived s old v = record {
      writer = v.writer;
      count = v.count;
      position = v.position;
      delivered = v.delivered;
      small = λ i e. ground (arith, v.small i, v.in_range);
      in_range = v.in_range;
      passed = λ i low high. ground (arith, v.passed i low high);
      held = λ i msg e. ground (arith, v.held i msg e);
      kept = λ i e low. ground (arith, v.kept i, old);
    }

    -- An arrival that goes to the buffer.
    pub buffer-InStep :
        (n : ℕ) (arrived : List ℕ) (s : Reorder)
        → n < max_int64
        → InStep arrived s
        → InStep (n ∷ arrived) (record s { buffer = put ℕ_discrete n (source n) s.buffer })
    buffer-InStep n arrived s fits v = record {
      writer = v.writer;
      count = v.count;
      position = v.position;
      delivered = v.delivered;
      small = λ i e. ground (arith, v.small i);
      in_range = v.in_range;
      passed = λ i low high. ground (arith, v.passed i low high);
      held =
          λ i msg e. ground (arith, v.held i msg, lookup-put ℕ_discrete n i (source n) s.buffer, e);
      kept =
          λ i e low. ground (arith, v.kept i, low, lookup-put ℕ_discrete n i (source n) s.buffer);
    }

    -- An arrival that is delivered at once: as if it had passed through the buffer.
    pub due-InStep :
        (n : ℕ) (arrived : List ℕ) (s : Reorder)
        → n ≡ s.expected
        → n < max_int64
        → Missing s
        → InStep arrived s
        → InStep (n ∷ arrived) (advance (process_message (source n) s))
    due-InStep n arrived s e fits m v = rw e (
        deliver-InStep (s.expected ∷ arrived)
          (record s { buffer = put ℕ_discrete s.expected (source s.expected) s.buffer }) s.buffer
          (buffer-InStep s.expected arrived s (omega arith) v) (ground (arith, ==_refl s.expected))
          (λ i msg f.
            ground (arith, m, f, lookup-put ℕ_discrete s.expected i (source s.expected) s.buffer))
          (λ i ne. ground (arith, lookup-put ℕ_discrete s.expected i (source s.expected) s.buffer)))
