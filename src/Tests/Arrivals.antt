-- ===== src/Tests/Arrivals.antt =====
-- Messages that arrive out of order.
use session_proxy.Prelude.{ℕ, ◌≡◌, refl, List, [], ◌∷◌, arith, map, ℕ_discrete}
use session_proxy.Prelude.Assoc.{lookup, delete, put}
use session_proxy.Message.{AgentMessage, new_input_message}
use session_proxy.Adapter.Reorder.{
  initial, feed, order_message, process_buffered_messages, drain, take_buffered, advance,
  process_message,
}
use session_proxy.Adapter.Reorder.Order.{contains}
use session_proxy.Adapter.Reorder.Delivery.{Delivered, feed-Delivered, feed_order_irrelevant}

abbrev source : ℕ → AgentMessage
source n = new_input_message (n ∷ []) 0 (n ∷ n ∷ []) n

source_numbered : (n : ℕ) → (source n).sequence_number ≡ n
unfolding new_input_message
source_numbered n = refl

-- 5 waits for 3 and 4; 1 and the second 2 are old.
abbrev shuffled : List ℕ
shuffled = 5 ∷ 2 ∷ 4 ∷ 2 ∷ 1 ∷ 3 ∷ 8 ∷ []

shuffled_stream :
    (feed (initial 2) (map source shuffled)).stream ≡ 2 ∷ 2 ∷ 3 ∷ 3 ∷ 4 ∷ 4 ∷ 5 ∷ 5 ∷ []
unfolding new_input_message feed order_message process_buffered_messages drain take_buffered advance
    process_message lookup delete put ℕ_discrete
shuffled_stream = refl

feed-Delivered_example :
    Delivered source source_numbered 2 shuffled (feed (initial 2) (map source shuffled))
feed-Delivered_example =
    feed-Delivered source source_numbered 2 shuffled (omega arith) (omega arith)

abbrev ordered : List ℕ
ordered = 1 ∷ 2 ∷ 3 ∷ []

abbrev reversed : List ℕ
reversed = 3 ∷ 2 ∷ 1 ∷ []

same_numbers : (i : ℕ) → contains i ordered ≡ contains i reversed
same_numbers i = ground arith

feed_order_irrelevant_example :
    ((feed (initial 1) (map source ordered)).stream
      ≡ (feed (initial 1) (map source reversed)).stream)
    × ((feed (initial 1) (map source ordered)).expected
        ≡ (feed (initial 1) (map source reversed)).expected)
feed_order_irrelevant_example =
    feed_order_irrelevant source source_numbered 1 ordered reversed (omega arith) (omega arith)
      (omega arith) same_numbers
