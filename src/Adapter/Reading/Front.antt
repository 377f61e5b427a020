-- ===== src/Adapter/Reading/Front.antt =====
-- What readLoopForGen of internal/protocol/adapter_resume.go hands to dispatchMessage.
use session_proxy.Prelude.{
  ℕ, ◌+◌, ◌≡◌, ◌<◌, ◌^◌, ◌⊎◌, inl, inr, refl, sym, subst, ap, Bool, true, false, List, [], ◌∷◌,
  ◌++◌, none, some, map, arith, All, Bool-cases, length,
}
use session_proxy.Message.{External, AgentMessage, IsEncodable}
use session_proxy.Message.Encode.{marshal_binary, sealed}
use session_proxy.Message.Decode.{unmarshal_message, ok}
use session_proxy.Message.RoundTrip.{received, unmarshal_message-marshal_binary}
use session_proxy.Adapter.Lifecycle.{Link}
use session_proxy.Adapter.Dispatch.{Session, Turn, dispatch_message, dispatch_all}
use session_proxy.Adapter.Dispatch.Links.{dispatch_message-Settles}
use session_proxy.Adapter.Reading.{
  Round, is_stale, read_message, fail_transport, leave, read_loop, returned,
}

module _ (x : External) where
  -- A message that a frame carries as it is.
  pub record IsSendable (m : AgentMessage) : Type 0 where
    pub fields_fit : IsEncodable m.header
    pub digest_size : length (x.sha256 m.payload) ≡ 32
    pub plain_header : m.header_length ≡ 116
    pub frame_fits : 120 + length m.payload < 2 ^ 32

  -- The message that arrives.
  abbrev pub arrived : Turn × AgentMessage → Turn × AgentMessage
  arrived (e, m) = (e, record { header = received (sealed x m); payload = m.payload })

  -- A round that reads the message, while nobody else works on the adapter.
  abbrev pub arrival : Turn × AgentMessage → Round
  arrival (e, m) = record {
    before = λ s. s;
    between = λ s. s;
    during = λ s. s;
    frame = some (marshal_binary x m);
    turn = e;
  }

  -- The messages that were dispatched, the first of those that came, up to all of them or the end
  -- of the adapter.
  pub record Front (ms : List (Turn × AgentMessage)) (s t : Session) : Type 0 where
    pub front : List (Turn × AgentMessage)
    pub rest : List (Turn × AgentMessage)
    pub in_order : map arrived ms ≡ front ++ rest
    pub dispatched : t ≡ dispatch_all x front s
    pub all_or_closed : (rest ≡ []) ⊎ (t.link.done ≡ true)

  unmarshals :
      (m : AgentMessage)
      → IsSendable m
      → unmarshal_message (marshal_binary x m)
        ≡ ok (record { header = received (sealed x m); payload = m.payload })
  unmarshals m f =
      unmarshal_message-marshal_binary x m f.fields_fit f.digest_size f.plain_header f.frame_fits

  module _ (enabled : Bool) (gen ws : ℕ) where
    -- The loop reads the WebSocket that the adapter uses.
    abbrev Reads : Link → Type 0
    Reads l = (l.done ≡ false) × (l.conn ≡ some ws) × (l.conn_gen ≡ gen)

    leave_shut : (s : Session) → s.link.done ≡ true → leave x enabled gen s ≡ s
    unfolding leave fail_transport
    leave_shut s d = ground (arith, d)

    read_loop_shut :
        (ms : List (Turn × AgentMessage)) (s : Session)
        → s.link.done ≡ true
        → s.link.conn ≡ none
        → (read_loop x enabled gen (map arrival ms) s).1 ≡ s
    unfolding read_loop read_message
    read_loop_shut [] s d c = refl
    read_loop_shut (m ∷ ms) s d c = ground (arith, d, c, leave_shut s d)

    read_loop_step :
        (e : Turn) (m : AgentMessage) (ms : List (Turn × AgentMessage)) (s : Session)
        → IsSendable m
        → Reads s.link
        → read_loop x enabled gen (map arrival ((e, m) ∷ ms)) s
          ≡ elim (dispatch_message x e (arrived (e, m)).1 s).0 [
            | true ↦
                read_loop x enabled gen
                  (map arrival ms)
                  (dispatch_message x e (arrived (e, m)).1 s).1
            | false ↦ (returned, (dispatch_message x e (arrived (e, m)).1 s).1)
          ]
    unfolding read_loop read_message is_stale
    read_loop_step e m ms s f (d, c, g) = ground (arith, d, c, g, unmarshals m f)

    dispatch_one :
        (e : Turn) (m : AgentMessage) (s : Session)
        → dispatch_all x ((e, m) ∷ []) s ≡ (dispatch_message x e m s).1
    unfolding dispatch_all
    dispatch_one e m s = ground arith

    -- The adapter is closed behind the message.
    closed-Front :
        (e : Turn) (m : AgentMessage) (ms : List (Turn × AgentMessage)) (s : Session)
        → (dispatch_message x e (arrived (e, m)).1 s).1.link.done ≡ true
        → Front ((e, m) ∷ ms) s (dispatch_message x e (arrived (e, m)).1 s).1
    closed-Front e m ms s d = record {
      front = arrived (e, m) ∷ [];
      rest = map arrived ms;
      in_order = refl;
      dispatched = sym (dispatch_one e (arrived (e, m)).1 s);
      all_or_closed = inr d;
    }

    -- Of messages that the agent puts on the WebSocket, each in a frame of its own, readLoopForGen
    -- dispatches the first ones, in their order: all of them, or those up to one that closed the
    -- adapter. Each has its payload, number, id and flags as they were sent, its type without the
    -- blanks at its ends, and the length and digest that the frame gave it. Nobody else works on the
    -- adapter, and the messages are such as a frame carries.
    pub read_loop-Front :
        (ms : List (Turn × AgentMessage)) (s : Session)
        → All (λ m. IsSendable m.1) ms
        → Reads s.link
        → Front ms s (read_loop x enabled gen (map arrival ms) s).1
    unfolding read_loop dispatch_all
    read_loop-Front [] s f o = record {
      front = [];
      rest = [];
      in_order = refl;
      dispatched = refl;
      all_or_closed = inl refl;
    }
    read_loop-Front ((e, m) ∷ ms) s (f, fs) o =
        let (keeps, on) = dispatch_message-Settles s.link o.0 x e (arrived (e, m)).1 s (inl refl) in
        subst (λ r. Front ((e, m) ∷ ms) s r.1) (sym (read_loop_step e m ms s f o))
          (elim (Bool-cases (dispatch_message x e (arrived (e, m)).1 s).0) [
            | inr q ↦ rw q (closed-Front e m ms s (ground (arith, q, on)))
            | inl q ↦ rw q (elim keeps [
              | inl same ↦ further e m ms s q (read_loop-Front ms _ fs (subst Reads (sym same) o))
              | inr (d, c, g) ↦
                  subst (Front ((e, m) ∷ ms) s) (sym (read_loop_shut ms _ d c))
                    (closed-Front e m ms s d)
            ])
          ])
      where
        further :
            (e : Turn) (m : AgentMessage) (ms : List (Turn × AgentMessage)) (s : Session)
            → (dispatch_message x e (arrived (e, m)).1 s).0 ≡ true
            → {t : Session} → Front ms (dispatch_message x e (arrived (e, m)).1 s).1 t
            → Front ((e, m) ∷ ms) s t
        further e m ms s q v = record {
          front = arrived (e, m) ∷ v.front;
          rest = v.rest;
          in_order = ap (λ l. arrived (e, m) ∷ l) v.in_order;
          dispatched = rw (q, dispatch_all) v.dispatched;
          all_or_closed = v.all_or_closed;
        }
