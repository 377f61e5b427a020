-- ===== src/Adapter/Publication.antt =====
-- Pausing of publication in internal/protocol/adapter.go and adapter_resume.go (pauseMu), and
-- handleAcknowledge, which ends a pause.
use session_proxy.Prelude.{
  ℕ, ◌≡◌, refl, Bool, true, false, not, List, [], ◌∷◌, Option, none, some, ite, arith, if_both,
  if◌then◌else◌,
}
use session_proxy.Prelude.Bytes.{Bytes, bytes_discrete}
use session_proxy.Message.{External, AcknowledgeContent, msg_type_input_stream_data}
use session_proxy.Adapter.Outgoing.{Outgoing, ack_outgoing}
use session_proxy.Adapter.Outgoing.Window.{Consistent}
use session_proxy.Adapter.Outgoing.Window.Removal.{ack_outgoing-Consistent}

-- `pause_ch` says whether the channel that writers wait on is there.
pub record Flow : Type 0 where
  pub paused : Bool
  pub pause_ch : Bool
  pub paused_since : ℕ
  pub window : Outgoing

-- pausePublication
unfoldable pub pause_publication : ℕ → Flow → Flow
pause_publication now s =
    if s.paused then s else record s { pause_ch = true; paused = true; paused_since = now }

-- resumePublication
unfoldable pub resume_publication : Flow → Flow
resume_publication s = if not s.paused then s else record s { paused = false; pause_ch = false }

-- clearPauseForReconnect
unfoldable pub clear_pause_for_reconnect : Flow → Flow
clear_pause_for_reconnect s =
    if not s.paused then s else record s { paused = false; paused_since = 0; pause_ch = false }

-- The channel is there exactly during a pause.
pub record Paired (s : Flow) : Type 0 where
  pub channel : s.pause_ch ≡ s.paused

module _ (x : External) where
  -- The window after an acknowledgement that was parsed.
  acknowledge_content : ℕ → AcknowledgeContent → Outgoing → Outgoing
  acknowledge_content now ack w =
      ite (bytes_discrete ack.acked_type msg_type_input_stream_data)
        (elim (x.uuid_parse ack.acked_id) [
          | none ↦ w
          | some id ↦ ack_outgoing now ack.acked_seq id w
        ])
        w

  acknowledge_payload : ℕ → Option AcknowledgeContent → Outgoing → Outgoing
  unfolding acknowledge_content
  acknowledge_payload now none w = w
  acknowledge_payload now (some ack) w = acknowledge_content now ack w

  -- handleAcknowledge
  unfoldable pub handle_acknowledge : ℕ → Bytes → Flow → Flow
  unfolding acknowledge_payload resume_publication
  handle_acknowledge now payload s =
      resume_publication
        (record s { window = acknowledge_payload now (x.unmarshal_ack payload) s.window })

  acknowledge_content-Consistent :
      (now : ℕ) (ack : AcknowledgeContent) (w : Outgoing)
      → Consistent w
      → Consistent (acknowledge_content now ack w)
  unfolding acknowledge_content
  acknowledge_content-Consistent now ack w v =
      elim (bytes_discrete ack.acked_type msg_type_input_stream_data)
        as (λ d. Consistent (
          ite d
            (elim (x.uuid_parse ack.acked_id) [
              | none ↦ w
              | some id ↦ ack_outgoing now ack.acked_seq id w
            ])
            w)) [
              | yes same ↦
                  elim (x.uuid_parse ack.acked_id)
                    as (λ o.
                      Consistent
                        (elim o [ none ↦ w | some id ↦ ack_outgoing now ack.acked_seq id w ])) [
                          | none ↦ v
                          | some id ↦ ack_outgoing-Consistent now ack.acked_seq id w v
                        ]
              | no other ↦ v
            ]

  acknowledge_payload-Consistent :
      (now : ℕ) (o : Option AcknowledgeContent) (w : Outgoing)
      → Consistent w
      → Consistent (acknowledge_payload now o w)
  unfolding acknowledge_payload
  acknowledge_payload-Consistent now none w v = v
  acknowledge_payload-Consistent now (some ack) w v = acknowledge_content-Consistent now ack w v

  handle_acknowledge-Consistent :
      (now : ℕ) (payload : Bytes) (s : Flow)
      → Consistent s.window
      → Consistent (handle_acknowledge now payload s).window
        × ((handle_acknowledge now payload s).paused ≡ false)
  unfolding handle_acknowledge resume_publication
  handle_acknowledge-Consistent now payload s v = (
    if_both {A = Flow} (λ f. Consistent f.window) (not s.paused) _ _
        (λ h. acknowledge_payload-Consistent now (x.unmarshal_ack payload) s.window v)
        λ h. acknowledge_payload-Consistent now (x.unmarshal_ack payload) s.window v,
    if_both {A = Flow} (λ f. f.paused ≡ false) (not s.paused) _ _ (λ h. ground (arith, h))
        λ h. refl,
  )

  -- What changes the pause.
  pub data Event : Type 0 where
    remote_paused : ℕ → Event
    remote_started : Event
    acknowledged : ℕ → Bytes → Event
    reconnected : Event

  unfoldable pub apply : Event → Flow → Flow
  unfolding pause_publication resume_publication clear_pause_for_reconnect handle_acknowledge
  apply (remote_paused now) s = pause_publication now s
  apply remote_started s = resume_publication s
  apply (acknowledged now payload) s = handle_acknowledge now payload s
  apply reconnected s = clear_pause_for_reconnect s

  unfoldable pub run : List Event → Flow → Flow
  unfolding apply
  run [] s = s
  run (e ∷ es) s = run es (apply e s)

  apply-Paired : (e : Event) (s : Flow) → Paired s → Paired (apply e s)
  unfolding apply pause_publication resume_publication clear_pause_for_reconnect handle_acknowledge
  apply-Paired (remote_paused now) s v = record { channel = ground (arith, v.channel) }
  apply-Paired remote_started s v = record { channel = ground (arith, v.channel) }
  apply-Paired (acknowledged now payload) s v = record { channel = ground (arith, v.channel) }
  apply-Paired reconnected s v = record { channel = ground (arith, v.channel) }

  apply-Consistent : (e : Event) (s : Flow) → Consistent s.window → Consistent (apply e s).window
  unfolding apply pause_publication resume_publication clear_pause_for_reconnect
  apply-Consistent (remote_paused now) s v =
      if_both {A = Flow} (λ f. Consistent f.window) s.paused _ _ (λ h. v) (λ h. v)
  apply-Consistent remote_started s v =
      if_both {A = Flow} (λ f. Consistent f.window) (not s.paused) _ _ (λ h. v) (λ h. v)
  apply-Consistent (acknowledged now payload) s v =
      (handle_acknowledge-Consistent now payload s v).0
  apply-Consistent reconnected s v =
      if_both {A = Flow} (λ f. Consistent f.window) (not s.paused) _ _ (λ h. v) (λ h. v)

  -- However the remote pauses and starts, acknowledges with whatever payload, and the transport
  -- reconnects, the channel that writers wait on is there exactly during a pause, and the window
  -- keeps its invariant.
  run-Paired :
      (es : List Event) (s : Flow)
      → Paired s
      → Consistent s.window
      → Paired (run es s) × Consistent (run es s).window
  unfolding run
  run-Paired [] s v c = (v, c)
  run-Paired (e ∷ es) s v c =
      run-Paired es (apply e s) (apply-Paired e s v) (apply-Consistent e s c)
