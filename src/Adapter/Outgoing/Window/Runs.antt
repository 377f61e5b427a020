-- ===== src/Adapter/Outgoing/Window/Runs.antt =====
-- The window of internal/protocol/adapter.go under everything that writers, acknowledgements and
-- failures do to it.
use session_proxy.Prelude.{
  ℕ, ◌^◌, ◌<◌, ◌≤◌, ◌≡◌, ◌≢◌, ◌⊎◌, refl, Bool, true, false, ◌==◌, if◌then◌else◌, none, some, arith,
  length, ℕ_discrete, Option-cases, inl, inr,
}
use session_proxy.Prelude.Assoc.{lookup, lookup-put, lookup-delete}
use session_proxy.Prelude.Bytes.{Bytes}
use session_proxy.Prelude.Int64.{Int64, inc}
use session_proxy.Adapter.Outgoing.{
  OutgoingMessage, Outgoing, added, initial, track, sent_at, add_outgoing, ack_outgoing,
  drop_outgoing, remove_acked, remove_dropped,
}
use session_proxy.Adapter.Outgoing.Oldest.{seq_bound, empty}
use session_proxy.Adapter.Outgoing.Window.{Consistent}
use session_proxy.Adapter.Outgoing.Window.Growth.{add_outgoing-Consistent}
use session_proxy.Adapter.Outgoing.Window.Removal.{
  ack_outgoing-Consistent, drop_outgoing-Consistent,
}

-- The numbers that writers have taken and not yet brought to the window, by a test.
abbrev pub Held : Type 0
Held = Int64 → Bool

abbrev pub none_held : Held
none_held k = false

abbrev pub hold : Bool → Int64 → Held → Held
hold b n held k = if k == n then b else held k

-- What happens to the next number, the numbers held and the window. A writer takes a number; later,
-- in whatever order, writers that hold one are let in or turned away; acknowledgements, failed writes and Close come at any time.
pub data Step (n : Int64) (held : Held) (w : Outgoing) : Int64 → Held → Outgoing → Type 0 where
  takes : Step n held w (inc n) (hold true n held) w
  let_in :
      {v : Outgoing} (k : Int64) (now : ℕ) (late : Bool) (id frame : Bytes)
      → held k ≡ true
      → length frame < 2 ^ 30
      → add_outgoing now late k id frame w ≡ added v
      → Step n held w n (hold false k held) v
  turned_away : (k : Int64) → held k ≡ true → Step n held w n (hold false k held) w
  acked : (now : ℕ) (seq : Int64) (id : Bytes) → Step n held w n held (ack_outgoing now seq id w)
  dropped : (seq : Int64) (id : Bytes) → Step n held w n held (drop_outgoing seq id w)
  shut : Step n held w n held (record w { closed = true })

-- Reachable from what NewAdapter starts with under a limit. No number passes the largest.
pub data Reachable (limit : ℕ) : Int64 → Held → Outgoing → Type 0 where
  fresh : Reachable limit 0 none_held (record initial { max_bytes = limit })
  stepped :
      {n k : Int64} {held given : Held} {w v : Outgoing}
      → Reachable limit n held w
      → n < seq_bound
      → Step n held w k given v
      → Reachable limit k given v

-- The numbers in the window and those that are held were taken, and none is both.
pub record IsKept (n : Int64) (held : Held) (w : Outgoing) : Type 0 where
  pub consistent : Consistent w
  pub taken : (k : ℕ) (om : OutgoingMessage) → lookup ℕ_discrete k w.messages ≡ some om → k < n
  pub held_taken : (k : ℕ) → held k ≡ true → k < n
  pub apart : (k : ℕ) → held k ≡ true → lookup ℕ_discrete k w.messages ≡ none

ack_keys :
    (now : ℕ) (seq : Int64) (id : Bytes) (w : Outgoing) (k : ℕ) (om : OutgoingMessage)
    → lookup ℕ_discrete k (ack_outgoing now seq id w).messages ≡ some om
    → lookup ℕ_discrete k w.messages ≡ some om
unfolding ack_outgoing remove_acked
ack_keys now seq id w k om h = ground (arith, h, lookup-delete ℕ_discrete seq k w.messages)

drop_keys :
    (seq : Int64) (id : Bytes) (w : Outgoing) (k : ℕ) (om : OutgoingMessage)
    → lookup ℕ_discrete k (drop_outgoing seq id w).messages ≡ some om
    → lookup ℕ_discrete k w.messages ≡ some om
unfolding drop_outgoing remove_dropped
drop_keys seq id w k om h = ground (arith, h, lookup-delete ℕ_discrete seq k w.messages)

add_keys :
    (now : ℕ) (late : Bool) (n : Int64) (id frame : Bytes) (w v : Outgoing)
    → add_outgoing now late n id frame w ≡ added v
    → (k : ℕ) (om : OutgoingMessage) → lookup ℕ_discrete k v.messages ≡ some om
    → (k ≡ n) ⊎ (lookup ℕ_discrete k w.messages ≡ some om)
unfolding add_outgoing track
add_keys now late n id frame w v e k om h =
    ground (arith, e, h, lookup-put ℕ_discrete n k (sent_at now id frame) w.messages)

fresh_number :
    (n : Int64) (w : Outgoing)
    → ((k : ℕ) (om : OutgoingMessage) → lookup ℕ_discrete k w.messages ≡ some om → k < n)
    → lookup ℕ_discrete n w.messages ≡ none
fresh_number n w f = elim (Option-cases (lookup ℕ_discrete n w.messages)) [
  | inl e ↦ e
  | inr (om, e) ↦ absurd (omega (arith, f n om e))
]

-- Messages only leave.
absent :
    (k : ℕ) (w v : Outgoing)
    → ((om : OutgoingMessage)
        → lookup ℕ_discrete k v.messages ≡ some om
        → lookup ℕ_discrete k w.messages ≡ some om)
    → lookup ℕ_discrete k w.messages ≡ none
    → lookup ℕ_discrete k v.messages ≡ none
absent k w v f e = elim (Option-cases (lookup ℕ_discrete k v.messages)) [
  | inl q ↦ q
  | inr (om, q) ↦ absurd (ground (arith, f om q, e))
]

-- The same for a message that comes in.
absent_beside :
    (k n : ℕ) (w v : Outgoing)
    → ((om : OutgoingMessage)
        → lookup ℕ_discrete k v.messages ≡ some om
        → (k ≡ n) ⊎ (lookup ℕ_discrete k w.messages ≡ some om))
    → k ≢ n
    → lookup ℕ_discrete k w.messages ≡ none
    → lookup ℕ_discrete k v.messages ≡ none
absent_beside k n w v f d e = absent k w v (λ om q. ground (arith, f om q, d)) e

let_in-IsKept :
    (n k : Int64) (held : Held) (w v : Outgoing) (now : ℕ) (late : Bool) (id frame : Bytes)
    → n ≤ seq_bound
    → held k ≡ true
    → length frame < 2 ^ 30
    → add_outgoing now late k id frame w ≡ added v
    → IsKept n held w
    → IsKept n (hold false k held) v
let_in-IsKept n k held w v now late id frame b h small e i =
    let below = i.held_taken k h in
    record {
      consistent =
          (add_outgoing-Consistent now late k id frame w v i.consistent (omega (arith, below, b))
            (i.apart k h) small e).0;
      taken = λ j om q. elim (add_keys now late k id frame w v e j om q) [
        | inl same ↦ omega (arith, same, below)
        | inr old ↦ i.taken j om old
      ];
      held_taken = λ j q. i.held_taken j (ground (arith, q));
      apart = λ j q.
          absent_beside j k w v (λ om. add_keys now late k id frame w v e j om) (ground (arith, q))
            (i.apart j (ground (arith, q)));
    }

Step-IsKept :
    (n k : Int64) (held given : Held) (w v : Outgoing)
    → n < seq_bound
    → Step n held w k given v
    → IsKept n held w
    → IsKept k given v
Step-IsKept n k held _ w v b takes i = record {
  consistent = i.consistent;
  taken = λ j om h. omega (arith, i.taken j om h, b);
  held_taken = λ j h. ground (arith, i.held_taken j, h, b);
  apart = λ j h. ground (arith, i.apart j, h, fresh_number n w i.taken);
}
Step-IsKept n k held _ w v b (let_in j now late id frame h small e) i =
    let_in-IsKept n j held w v now late id frame (omega (arith, b)) h small e i
Step-IsKept n k held _ w v b (turned_away j h) i = record {
  consistent = i.consistent;
  taken = i.taken;
  held_taken = λ l q. i.held_taken l (ground (arith, q));
  apart = λ l q. i.apart l (ground (arith, q));
}
Step-IsKept n k held _ w v b (acked now seq id) i = record {
  consistent = ack_outgoing-Consistent now seq id w i.consistent;
  taken = λ j om h. i.taken j om (ack_keys now seq id w j om h);
  held_taken = i.held_taken;
  apart = λ j h. absent j w (ack_outgoing now seq id w) (ack_keys now seq id w j) (i.apart j h);
}
Step-IsKept n k held _ w v b (dropped seq id) i = record {
  consistent = drop_outgoing-Consistent seq id w i.consistent;
  taken = λ j om h. i.taken j om (drop_keys seq id w j om h);
  held_taken = i.held_taken;
  apart = λ j h. absent j w (drop_outgoing seq id w) (drop_keys seq id w j) (i.apart j h);
}
Step-IsKept n k held _ w v b shut i = record {
  consistent = record {
    distinct = i.consistent.distinct;
    bounded = i.consistent.bounded;
    counted = i.consistent.counted;
    window = i.consistent.window;
    limit = i.consistent.limit;
    oldest_front = i.consistent.oldest_front;
  };
  taken = i.taken;
  held_taken = i.held_taken;
  apart = i.apart;
}

fresh-IsKept :
    (limit : ℕ) → limit ≤ 2 ^ 30 → IsKept 0 none_held (record initial { max_bytes = limit })
unfolding lookup
fresh-IsKept limit h = record {
  consistent = record {
    distinct = tt;
    bounded = λ k om e. absurd (ground (arith, e));
    counted = refl;
    window = omega arith;
    limit = h;
    oldest_front = empty refl;
  };
  taken = λ k om e. absurd (ground (arith, e));
  held_taken = λ k h. absurd (ground (arith, h));
  apart = λ k h. refl;
}

-- However writers take numbers and are let in or turned away in whatever order, acknowledgements come,
-- matched or not, and writes fail, the window keeps its invariant: distinct keys, the byte count equal
-- to the sum of the frames and within the limit, the oldest pointer at the least key. And no number is
-- in it that was not taken, or that its writer still holds.
pub Reachable-IsKept :
    (limit : ℕ) (n : Int64) (held : Held) (w : Outgoing)
    → limit ≤ 2 ^ 30
    → Reachable limit n held w
    → IsKept n held w
Reachable-IsKept limit n held w h fresh = fresh-IsKept limit h
Reachable-IsKept limit n held w h (stepped r b s) =
    Step-IsKept _ n _ held _ w b s (Reachable-IsKept limit _ _ _ h r)
