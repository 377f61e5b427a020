-- ===== src/Tests/Writes.antt =====
-- Writes of a few bytes.
use session_proxy.Prelude.{
  ℕ, All, Option, ◌≡◌, refl, true, false, List, [], ◌∷◌, ◌++◌, none, some, arith, replicate,
}
use session_proxy.Prelude.Bytes.{Bytes, codes, be}
use session_proxy.Prelude.Int64.{Int64}
use session_proxy.Message.{External, new_input_message}
use session_proxy.Message.Encode.{marshal_binary, encode_header, pad_type, copy}
use session_proxy.Adapter.Outgoing.{Outgoing, initial, add_outgoing}
use session_proxy.Adapter.Write.{
  WriteError, Attempt, Pass, Round, Sender, wrote, deadline_passed, write, write_raw, write_chunk,
  send_with_room, await_room, wait_for_publication, next_seq, resolve_chunk_size,
}
use session_proxy.Adapter.Settings.{chunk_size_of, max_unacked_of, override_in}
use session_proxy.Adapter.Write.Exact.{IsRound, Numbered, Exactly, write-Exactly}
use session_proxy.Adapter.Write.Returns.{IsOpen, IsReady, empties, write-returns}
use session_proxy.Adapter.Write.Gap.{IsRefused, write-gap}

abbrev library : External
library = record {
  sha256 = λ bytes. replicate 32 7;
  uuid_string = λ id. id;
  uuid_parse = λ text. some text;
  marshal_ack = λ content. none;
  unmarshal_ack = λ bytes. none;
  marshal_response = λ response. none;
}

-- The others empty the window.
abbrev emptied : Outgoing → Outgoing
emptied w = record w { messages = []; bytes = 0 }

abbrev pass : Pass
pass = record { now = 5; late = false; meanwhile = emptied }

abbrev attempt : Attempt
attempt = record {
  gates =
      record { stopped = false; shut = false; has_channel = false; slept = none; signalled = none }
      ∷ [];
  reconnecting = false;
  has_conn = true;
  write_error = none;
  closing = false;
}

abbrev round : Round
round = record {
  gates =
      record { stopped = false; shut = false; has_channel = false; slept = none; signalled = none }
      ∷ [];
  id = replicate 16 3;
  created = 1700000000000;
  passes = pass ∷ pass ∷ [];
  attempts = attempt ∷ [];
  meanwhile = λ w. w;
}

abbrev sender : Sender
sender = record { seq_num = 4; window = initial; wire = [] }

round-IsRound : IsRound round
round-IsRound = record { id_length = refl; created_fits = omega arith }

round-IsReady : IsReady 1144 round
unfolding wait_for_publication write_raw
round-IsReady = record {
  published = refl;
  emptied = empties refl (λ w o. (
    record {
      not_closed = o.not_closed;
      bytes_fit = omega arith;
      room_for = o.room_for;
      limit = o.limit;
    },
    refl,
  ));
  connected = refl;
  kept = λ w o. o;
}

initial-IsOpen : IsOpen 1144 initial
initial-IsOpen = record {
  not_closed = refl;
  bytes_fit = omega arith;
  room_for = omega arith;
  limit = omega arith;
}

chunk_of_1024 : resolve_chunk_size 1024 ≡ 1024
unfolding resolve_chunk_size
chunk_of_1024 = refl

-- The only number is 700.
abbrev parse_700 : Bytes → Option Int64
parse_700 v = some 700

write-returns_example :
    (t : Sender) × (write library (round ∷ []) (chunk_size_of parse_700 []) (codes "SSH-2.0") sender
      ≡ wrote 7 none t)
unfolding resolve_chunk_size chunk_size_of max_unacked_of override_in
write-returns_example =
    write-returns library parse_700 [] [] (round ∷ []) (codes "SSH-2.0") sender
      (λ v n e. ground (arith, e)) (λ b. refl) (round-IsRound, tt) (round-IsReady, tt) (omega arith)
      (omega arith) refl refl (omega arith)

-- The window is full, and the deadline passes.
abbrev full : Sender
full = record sender { window = record initial { bytes = 262144 } }

abbrev late_round : Round
late_round = record round { passes = record pass { late = true } ∷ [] }

abbrev given_up : Sender
given_up = record full { seq_num = 5 }

late_refused :
    write library (late_round ∷ []) 1024 (codes "SSH-2.0") full
    ≡ wrote 0 (some deadline_passed) given_up
unfolding write write_chunk send_with_room next_seq wait_for_publication await_room add_outgoing
    resolve_chunk_size marshal_binary encode_header pad_type copy new_input_message be
late_refused = refl

late-IsRefused : IsRefused library late_round (codes "SSH-2.0") full deadline_passed
unfolding wait_for_publication await_room add_outgoing marshal_binary encode_header pad_type copy
    new_input_message be
late-IsRefused = record { published = refl; window = full.window; found_no_room = refl }

write-Exactly_example : Exactly 1024 (codes "SSH-2.0") 0 full 0 (some deadline_passed) given_up
unfolding resolve_chunk_size
write-Exactly_example =
    write-Exactly library (late_round ∷ []) 1024 (codes "SSH-2.0") 0 (some deadline_passed) full
      given_up (λ b. refl) (omega arith)
      (record { id_length = refl; created_fits = omega arith }, tt) (omega arith) late_refused

write-gap_example :
    (t : Sender) × (write library (late_round ∷ []) 1024 (codes "SSH-2.0") full
      ≡ wrote 0 (some deadline_passed) t)
    × (t.wire ≡ full.wire)
    × ((later : List Round) (d : Bytes) (n : ℕ) (f : Option WriteError) (u : Sender)
        → All IsRound later
        → write library later 1024 d t ≡ wrote n f u
        → (payloads : List Bytes) × (frames : List Bytes) × (end : Int64) × (u.wire
            ≡ full.wire ++ frames)
          × Numbered 5 payloads frames end)
unfolding resolve_chunk_size
write-gap_example =
    write-gap library late_round [] 1024 b'S' (codes "SH-2.0") deadline_passed full (λ b. refl)
      (omega arith) late-IsRefused
