-- ===== src/Adapter/Reading.antt =====
-- readLoopForGen and readMessageForGen of internal/protocol/adapter_resume.go: the loop that reads
-- one generation of the WebSocket and hands its messages to dispatchMessage.
pub mod Front
use session_proxy.Prelude.{
  ℕ, Bool, true, false, not, List, [], ◌∷◌, Option, none, some, ◌==◌, if◌then◌else◌,
}
use session_proxy.Prelude.Bytes.{Bytes}
use session_proxy.Message.{External, AgentMessage}
use session_proxy.Message.Decode.{unmarshal_message, ok, panic}
use session_proxy.Adapter.Lifecycle.{Link, CloseError, transport_failed, handle_transport_failure}
use session_proxy.Adapter.Dispatch.{Session, Turn, with_link, dispatch_message}

-- One round: what others do to the adapter before the look at the generation, before getConn, and
-- until ReadMessage returns, with a frame or, for none, an error.
pub record Round : Type 0 where
  pub before : Session → Session
  pub between : Session → Session
  pub during : Session → Session
  pub frame : Option Bytes
  pub turn : Turn

-- connGenerationStale
unfoldable pub is_stale : ℕ → Link → Bool
is_stale gen l = not (l.conn_gen == gen)

-- What readMessageForGen returns: an error, no message, or one. UnmarshalMessage may panic.
pub data Received : Type 0 where
  failed : Received
  skipped : Received
  crashed : Received
  got : AgentMessage → Received

-- readMessageForGen behind getConn.
unfoldable pub read_message : ℕ → Link → Option Bytes → Received
unfolding is_stale
read_message gen l frame = elim l.conn [
  | none ↦ failed
  | some ws ↦ if is_stale gen l then failed else elim frame [
    | none ↦ failed
    | some bytes ↦ elim (unmarshal_message bytes) [
      | ok msg ↦ got msg
      | panic ↦ crashed
      | _ ↦ skipped
    ]
  ]
]

-- handleTransportFailure, which does nothing to a closed adapter.
unfoldable pub fail_transport : Bool → CloseError → Session → Session
unfolding with_link handle_transport_failure
fail_transport enabled e s =
    if s.link.done then s else with_link (handle_transport_failure enabled e s.link).1 s

-- The loop still reads, has returned, or has brought the program down.
pub data Reading : Type 0 where
  reads : Reading
  returned : Reading
  panicked : Reading

module _ (x : External) (resume_enabled : Bool) (gen : ℕ) where
  -- The end of a round whose read failed.
  unfoldable pub leave : Session → Session
  unfolding is_stale fail_transport
  leave s = if is_stale gen s.link then s else fail_transport resume_enabled transport_failed s

  -- readLoopForGen
  unfoldable pub read_loop : List Round → Session → Reading × Session
  unfolding is_stale read_message leave dispatch_message
  read_loop [] s = (reads, s)
  read_loop (r ∷ rs) s =
      let top = r.before s in
      let fetched = r.between top in
      let after = r.during fetched in
      if is_stale gen top.link
      then (returned, top)
      else elim (read_message gen fetched.link r.frame) [
        | failed ↦ (returned, leave after)
        | crashed ↦ (panicked, after)
        | skipped ↦ read_loop rs after
        | got msg ↦
            let (on, t) = dispatch_message x r.turn msg after in
            elim on [ true ↦ read_loop rs t | false ↦ (returned, t) ]
      ]
