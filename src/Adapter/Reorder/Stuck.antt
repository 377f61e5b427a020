-- ===== src/Adapter/Reorder/Stuck.antt =====
-- What a missing message does to the stream of internal/protocol/adapter.go.
use session_proxy.Prelude.{◌≡◌, refl, sym, subst, ◌∙◌, All-imp, true, List, [], ◌∷◌, arith, All}
use session_proxy.Prelude.Int64.{slt}
use session_proxy.Message.{AgentMessage}
use session_proxy.Adapter.Reorder.{Reorder, order_message, feed}

-- A state that only meets messages above the expected number.
abbrev pub IsAbove : Reorder → AgentMessage → Type 0
IsAbove q m = slt q.expected m.sequence_number ≡ true

order_above :
    (m : AgentMessage) (q : Reorder)
    → IsAbove q m
    → ((order_message m q).stream ≡ q.stream) × ((order_message m q).expected ≡ q.expected)
unfolding order_message
order_above m q h = (ground (arith, h), ground (arith, h))

-- However many messages above the expected number come, the stream stays as it is.
pub feed_above :
    (ms : List AgentMessage) (q : Reorder)
    → All (IsAbove q) ms
    → ((feed q ms).stream ≡ q.stream) × ((feed q ms).expected ≡ q.expected)
unfolding feed
feed_above [] q h = (refl, refl)
feed_above (m ∷ ms) q (above, rest) =
    let (s, e) = order_above m q above in
    let (s2, e2) =
      feed_above ms (order_message m q)
        (All-imp _ _ ms (λ o a. subst (λ k. slt k o.sequence_number ≡ true) (sym e) a) rest) in
    (s2 ∙ s, e2 ∙ e)
