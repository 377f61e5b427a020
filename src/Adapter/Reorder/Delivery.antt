-- ===== src/Adapter/Reorder/Delivery.antt =====
-- handleDataMessage of internal/protocol/adapter.go against its specification: whatever the order
-- in which messages arrive, the pipe gets their payloads in the order of the sequence numbers.
use session_proxy.Prelude.{
  ◌∙◌, ℕ, ◌+◌, ◌<◌, ◌≤◌, ◌≡◌, ◌≢◌, refl, sym, ap, true, false, ◌||◌, List, [], ◌∷◌, arith,
  ℕ_discrete, All, map,
}
use session_proxy.Prelude.Assoc.{lookup, put, lookup-put}
use session_proxy.Prelude.Int64.{max_int64}
use session_proxy.Message.{AgentMessage}
use session_proxy.Adapter.Reorder.{
  Reorder, process_message, advance, process_buffered_messages, order_message, initial, feed,
}
use session_proxy.Adapter.Reorder.Order.{
  Missing, InStep, drain-Missing, drain-InStep, contains, span, due-InStep, old-InStep,
  buffer-InStep,
}

module _ (source : ℕ → AgentMessage) (numbered : (n : ℕ) → (source n).sequence_number ≡ n)
    (start : ℕ) where
  abbrev Settled : List ℕ → Reorder → Type 0
  Settled arrived s = InStep source start arrived s × Missing s

  due-Settled :
      (n : ℕ) (arrived : List ℕ) (s : Reorder)
      → n ≡ s.expected
      → n < max_int64
      → Settled arrived s
      → Settled (n ∷ arrived) (process_buffered_messages (advance (process_message (source n) s)))
  unfolding process_buffered_messages
  due-Settled n arrived s e fits (v, m) = (
    drain-InStep source start _ _ _ (due-InStep source start n arrived s e fits m v),
    drain-Missing _ _ (omega arith),
  )

  early-Settled :
      (n : ℕ) (arrived : List ℕ) (s : Reorder)
      → n ≢ s.expected
      → n < max_int64
      → Settled arrived s
      → Settled (n ∷ arrived) (record s { buffer = put ℕ_discrete n (source n) s.buffer })
  early-Settled n arrived s ne fits (v, m) = (
    buffer-InStep source start n arrived s fits v,
    ground (arith, lookup-put ℕ_discrete n s.expected (source n) s.buffer),
  )

  order_message-Settled :
      (n : ℕ) (arrived : List ℕ) (s : Reorder)
      → n < max_int64
      → Settled arrived s
      → Settled (n ∷ arrived) (order_message (source n) s)
  unfolding order_message
  order_message-Settled n arrived s fits v = ground (
    arith,
    numbered n,
    v.0.in_range,
    due-Settled n arrived s,
    early-Settled n arrived s,
    old-InStep source start n arrived s,
  )

  initial-Settled : start ≤ max_int64 → Settled [] (initial start)
  unfolding lookup
  initial-Settled h = (
    record {
      writer = refl;
      count = 0;
      position = omega arith;
      delivered = refl;
      small = λ i e. cc;
      in_range = h;
      passed = λ i low high. absurd (omega arith);
      held = λ i msg e. absurd (ground (arith, e));
      kept = λ i e low. cc;
    },
    refl,
  )

  -- The arrivals, the last one first.
  abbrev onto : List ℕ → List ℕ → List ℕ
  onto [] acc = acc
  onto (n ∷ ns) acc = onto ns (n ∷ acc)

  feed-Settled :
      (ns acc : List ℕ) (s : Reorder)
      → All (λ n. n < max_int64) ns
      → Settled acc s
      → Settled (onto ns acc) (feed s (map source ns))
  unfolding feed
  feed-Settled [] acc s fits v = v
  feed-Settled (n ∷ ns) acc s (fit, fits) v =
      feed-Settled ns (n ∷ acc) (order_message (source n) s) fits
        (order_message-Settled n acc s fit v)

  contains-onto :
      (i : ℕ) (ns acc : List ℕ) → contains i (onto ns acc) ≡ (contains i ns || contains i acc)
  contains-onto i [] acc = refl
  contains-onto i (n ∷ ns) acc = ground (arith, contains-onto i ns (n ∷ acc))

  -- The specification: the numbers from `start` on that arrived without a gap, and no further.
  pub record Delivered (ns : List ℕ) (s : Reorder) : Type 0 where
    pub count : ℕ
    pub next : s.expected ≡ start + count
    pub in_order : s.stream ≡ span source start count
    pub all_arrived : (i : ℕ) → start ≤ i → i < start + count → contains i ns ≡ true
    pub first_missing : contains (start + count) ns ≡ false

  Settled-Delivered : (ns : List ℕ) (s : Reorder) → Settled (onto ns []) s → Delivered ns s
  Settled-Delivered ns s (v, m) = record {
    count = v.count;
    next = v.position;
    in_order = v.delivered;
    all_arrived = λ i low high. ground (arith, v.passed i low, v.position, contains-onto i ns []);
    first_missing =
        ground (arith, v.kept s.expected, v.position, m, contains-onto (start + v.count) ns []);
  }

  -- Messages numbered below the largest int64 arrive in any order, early, late or again. Then the
  -- pipe holds the payloads of the output messages from the first expected number up to the first
  -- number that has not arrived, each once and in order, and that number is expected next.
  pub feed-Delivered :
      (ns : List ℕ)
      → start ≤ max_int64
      → All (λ n. n < max_int64) ns
      → Delivered ns (feed (initial start) (map source ns))
  feed-Delivered ns h fits =
      Settled-Delivered ns _ (feed-Settled ns [] (initial start) fits (initial-Settled h))

  -- Two runs that end at the same number have written the same bytes.
  Delivered-le :
      (ns ms : List ℕ) (s t : Reorder)
      → ((i : ℕ) → contains i ns ≡ contains i ms)
      → (d : Delivered ns s) → (e : Delivered ms t) → d.count ≤ e.count
  Delivered-le ns ms s t same d e =
      ground (arith, d.all_arrived (start + e.count), e.first_missing, same (start + e.count))

  -- Where the same numbers have arrived, in whatever order and however often, the pipe holds the
  -- same bytes and the same number is expected.
  pub feed_order_irrelevant :
      (ns ms : List ℕ)
      → start ≤ max_int64
      → All (λ n. n < max_int64) ns
      → All (λ n. n < max_int64) ms
      → ((i : ℕ) → contains i ns ≡ contains i ms)
      → ((feed (initial start) (map source ns)).stream
          ≡ (feed (initial start) (map source ms)).stream)
        × ((feed (initial start) (map source ns)).expected
            ≡ (feed (initial start) (map source ms)).expected)
  feed_order_irrelevant ns ms h fits fits' same =
      let d = feed-Delivered ns h fits in
      let e = feed-Delivered ms h fits' in
      let counts : d.count ≡ e.count =
        omega (
          arith,
          Delivered-le ns ms _ _ same d e,
          Delivered-le ms ns _ _ (λ i. sym (same i)) e d,
        ) in
      (d.in_order ∙ ap (span source start) counts ∙ sym e.in_order, omega (arith, d.next, e.next))
