-- ===== src/Tests/Window.antt =====
-- Frames that wait for their acknowledgement.
use session_proxy.Prelude.{
  List, ℕ, ◌≤◌, ◌≡◌, refl, true, false, [], ◌∷◌, none, some, arith, ℕ_discrete,
}
use session_proxy.Prelude.Assoc.{lookup, delete, put}
use session_proxy.Prelude.Bytes.{bytes_discrete}
use session_proxy.Message.{External, msg_type_input_stream_data}
use session_proxy.Adapter.Publication.{Flow}
use session_proxy.Adapter.Outgoing.{
  Outgoing, OutgoingMessage, added, initial, ack_outgoing, add_outgoing, sent_at,
}
use session_proxy.Adapter.Outgoing.Oldest.{IsLeast, front}
use session_proxy.Adapter.Outgoing.Window.{Consistent}
use session_proxy.Adapter.Outgoing.Window.Runs.{
  Held, none_held, hold, IsKept, fresh, stepped, takes, let_in, acked, Reachable-IsKept,
}
use session_proxy.Adapter.Outgoing.Resend.{resend, resent, retry_oldest, resend_oldest, resend_tick}
use session_proxy.Adapter.Outgoing.Resend.Attempts.{
  Moment, IsGivenUp, resend_loop, resend_loop_gives_up,
}
use session_proxy.Adapter.Lifecycle.{connected}

-- Two frames in flight, 4 and 5.
abbrev two : Outgoing
two = record {
  messages = (5, sent_at 20 (2 ∷ []) (7 ∷ 7 ∷ [])) ∷ (4, sent_at 10 (1 ∷ []) (9 ∷ [])) ∷ [];
  oldest = 4;
  bytes = 3;
  closed = false;
  rto = 200000000;
  max_bytes = 262144;
}

two-IsLeast : IsLeast 4 two.messages
unfolding lookup ℕ_discrete
two-IsLeast = record {
  entry = sent_at 10 (1 ∷ []) (9 ∷ []);
  there = refl;
  below = λ k om e. two_keys k om e;
}
  where
    two_keys : (k : ℕ) (om : OutgoingMessage) → lookup ℕ_discrete k two.messages ≡ some om → 4 ≤ k
    two_keys k om e = ground (arith, e)

two-Consistent : Consistent two
unfolding lookup ℕ_discrete
two-Consistent = record {
  distinct = (refl, (refl, tt));
  bounded = λ k om e. ground (arith, e);
  counted = refl;
  window = omega arith;
  limit = omega arith;
  oldest_front = front two-IsLeast;
}

-- The acknowledgement of 4 moves the pointer to 5.
ack_four : (ack_outgoing 100000010 4 (1 ∷ []) two).oldest ≡ 5
unfolding ack_outgoing lookup delete ℕ_discrete bytes_discrete
ack_four = refl

abbrev three : Outgoing
three = record two { messages = (6, sent_at 30 (3 ∷ []) (8 ∷ [])) ∷ two.messages; bytes = 4 }

add_six : add_outgoing 30 false 6 (3 ∷ []) (8 ∷ []) two ≡ added three
unfolding add_outgoing put delete ℕ_discrete
add_six = refl

-- Two writers take 0 and 1, and the second is first at the window.
abbrev one : Outgoing
one = record initial { messages = (1, sent_at 10 (1 ∷ []) (9 ∷ [])) ∷ []; oldest = 1; bytes = 1 }

abbrev both : Outgoing
both = record initial {
  messages = (0, sent_at 12 (2 ∷ []) (8 ∷ [])) ∷ one.messages;
  oldest = 0;
  bytes = 2;
}

add_second : add_outgoing 10 false 1 (1 ∷ []) (9 ∷ []) initial ≡ added one
unfolding add_outgoing put delete
add_second = refl

add_first : add_outgoing 12 false 0 (2 ∷ []) (8 ∷ []) one ≡ added both
unfolding add_outgoing put delete ℕ_discrete
add_first = refl

abbrev arrived_late : Held
arrived_late = hold false 0 (hold false 1 (hold true 1 (hold true 0 none_held)))

Reachable-IsKept_example : IsKept 2 arrived_late (ack_outgoing 20 1 (1 ∷ []) both)
Reachable-IsKept_example =
    Reachable-IsKept 262144 2 arrived_late (ack_outgoing 20 1 (1 ∷ []) both) (omega arith) (
      stepped
        (stepped
          (stepped (stepped (stepped fresh (omega arith) takes) (omega arith) takes) (omega arith)
            (let_in 1 10 false (1 ∷ []) (9 ∷ []) refl (omega arith) add_second))
          (omega arith) (let_in 0 12 false (2 ∷ []) (8 ∷ []) refl (omega arith) add_first))
        (omega arith) (acked 20 1 (1 ∷ [])))

abbrev four : OutgoingMessage
four = sent_at 10 (1 ∷ []) (9 ∷ [])

resend_four : resend_tick 300000000 false false 0 two ≡ resend (9 ∷ []) (resent 300000000 four two)
unfolding resend_tick resend_oldest retry_oldest lookup ℕ_discrete
resend_four = refl

-- A frame that was written sixty times again.
abbrev tried : Outgoing
tried = record two { messages = (4, record four { resend_count = 60 }) ∷ [] }

abbrev moments : List Moment
moments =
    record { at = 600000000; reconnecting = false; paused = false; paused_since = 0 }
    ∷ record { at = 1100000000; reconnecting = false; paused = false; paused_since = 0 }
    ∷ record { at = 1600000000; reconnecting = false; paused = false; paused_since = 0 }
    ∷ []

resend_loop_gives_up_example : IsGivenUp (connected 4) (resend_loop moments tried (connected 4)).1
unfolding lookup ℕ_discrete
resend_loop_gives_up_example =
    resend_loop_gives_up moments tried (record four { resend_count = 60 }) (connected 4) 500000000
      100000010 refl (λ e. absurd (omega arith)) (omega arith) refl
      (
        refl,
        refl,
        omega arith,
        omega arith,
        (refl, refl, omega arith, omega arith, (refl, refl, omega arith, omega arith, tt)),
      )
      (omega arith) (omega arith) (omega arith)

-- Every payload is an acknowledgement of 4.
abbrev acks_four : External
acks_four = record {
  sha256 = λ bytes. [];
  uuid_string = λ id. id;
  uuid_parse = λ text. some text;
  marshal_ack = λ content. none;
  unmarshal_ack = λ bytes. some (record {
    acked_type = msg_type_input_stream_data;
    acked_id = 1 ∷ [];
    acked_seq = 4;
    is_sequential = true;
  });
  marshal_response = λ response. none;
}

abbrev paused_two : Flow
paused_two = record { paused = true; pause_ch = true; paused_since = 5; window = two }
