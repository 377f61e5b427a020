-- ===== src/Pool/Single.antt =====
-- connectSingle of internal/upstream/pool.go with getSSMClient, and the parts of NewAdapter and
-- WaitForHandshake of internal/protocol/adapter.go that it meets.
pub mod Complete
use session_proxy.Prelude.{
  ℕ, ◌+◌, ◌%◌, ◌^◌, Bool, true, false, List, [], ◌∷◌, Option, none, some, if◌then◌else◌,
}
use session_proxy.Prelude.Bytes.{Bytes}
use session_proxy.Adapter.Lifecycle.{Link, CloseError, connected, close_adapter, close_socket}
use session_proxy.Ssm.{
  Answer, SsmSession, Started, session, not_started, missing_fields, nil_followed, start_session,
}
use session_proxy.Ssh.{Machine, SshLogin, SshError}

-- getSSMClient: the cached client, or the one that the hook makes; a client is a number.
unfoldable pub get_ssm_client : Option ℕ → Option ℕ → Option ℕ × Option ℕ
get_ssm_client (some client) made = (some client, some client)
get_ssm_client none none = (none, none)
get_ssm_client none (some client) = (some client, some client)

-- NewAdapter: the adapter, and the WebSockets that it leaves open. The dial and whether
-- sendOpenDataChannel succeeds are arguments.
unfoldable pub new_adapter : Option ℕ → Bool → Option Link × List ℕ
unfolding close_socket
new_adapter none opened = (none, [])
new_adapter (some ws) opened =
    if opened
    then (some (connected ws), (connected ws).sockets)
    else (none, close_socket ws (ws ∷ []))

-- What WaitForHandshake wakes for: the handshake, the end of the adapter with a reason, while the
-- handshake is done or not, or the end of the context.
pub data Waking : Type 0 where
  handshake_done : Waking
  adapter_done : Bool → Option CloseError → Waking
  context_done : Waking

pub data HandshakeError : Type 0 where
  closed_before_handshake : Option CloseError → HandshakeError
  context_ended : HandshakeError

-- WaitForHandshake: its first look, and the select.
unfoldable pub wait_for_handshake : Bool → Waking → Option HandshakeError
wait_for_handshake true w = none
wait_for_handshake false handshake_done = none
wait_for_handshake false (adapter_done true reason) = none
wait_for_handshake false (adapter_done false reason) = some (closed_before_handshake reason)
wait_for_handshake false context_done = some context_ended

pub data ConnectError : Type 0 where
  no_client session_not_started adapter_not_made : ConnectError
  handshake_error : HandshakeError → ConnectError
  ssh_error : SshError → ConnectError

-- What connectSingle meets in its steps. `running` is the link when WaitForHandshake returns, and
-- `shaken` when Connect of internal/ssh does.
pub record Meets : Type 0 where
  pub made_client : Option ℕ
  pub answer : Option Answer
  pub dialled : Option ℕ
  pub opened : Bool
  pub done_at_once : Bool
  pub waking : Waking
  pub running : Link
  pub machine : Machine
  pub shaken : Link

-- A connection with its adapter, an error with what is left of the adapter and the WebSockets that are
-- open, or a panic.
pub data Single : Type 0 where
  established : ℕ → Link → Single
  failed : ConnectError → List ℕ → Single
  crashed : Single

-- The link behind Connect of internal/ssh, which closes the connection that does not answer.
unfoldable pub behind_ssh : Bool → Link → Link
unfolding close_adapter
behind_ssh closed l = if closed then close_adapter l else l

-- The fields of a Group and the package that connectSingle changes.
pub record Dialing : Type 0 where
  pub client : Option ℕ
  pub next_id : ℕ
  pub keepalives : ℕ

-- connectSingle behind NewAdapter.
unfoldable pub finish_single : SshLogin → Meets → Dialing → Single × Dialing
unfolding wait_for_handshake behind_ssh close_adapter session_proxy.Ssh.connect
finish_single cfg m d = elim (wait_for_handshake m.done_at_once m.waking) [
  | some e ↦ (failed (handshake_error e) (close_adapter m.running).sockets, d)
  | none ↦
      let ssh = session_proxy.Ssh.connect m.machine cfg in
      let after = behind_ssh ssh.conn_closed m.shaken in
      elim ssh.answer [
        | some e ↦ (failed (ssh_error e) (close_adapter after).sockets, d)
        | none ↦ (
          established ((d.next_id + 1) % 2 ^ 64) after,
          record d { next_id = (d.next_id + 1) % 2 ^ 64; keepalives = d.keepalives + 1 },
        )
      ]
]

-- What is done with the adapter, where there is one.
unfoldable pub use_adapter : SshLogin → Meets → Dialing → Option Link × List ℕ → Single × Dialing
unfolding finish_single
use_adapter cfg m d (none, left) = (failed adapter_not_made left, d)
use_adapter cfg m d (some l, left) = finish_single cfg m d

-- connectSingle behind StartSession.
unfoldable pub open_session : SshLogin → Meets → Dialing → Single × Dialing
unfolding new_adapter use_adapter
open_session cfg m d = use_adapter cfg m d (new_adapter m.dialled m.opened)

-- What is done with what StartSession returns.
unfoldable pub use_session : SshLogin → Meets → Dialing → Started → Single × Dialing
unfolding open_session
use_session cfg m d (session s) = open_session cfg m d
use_session cfg m d nil_followed = (crashed, d)
use_session cfg m d not_started = (failed session_not_started [], d)
use_session cfg m d missing_fields = (failed session_not_started [], d)

-- What is done with the client, where there is one.
unfoldable pub use_client : SshLogin → Meets → Dialing → Option ℕ → Single × Dialing
unfolding use_session start_session
use_client cfg m d none = (failed no_client [], d)
use_client cfg m d (some client) = use_session cfg m d (start_session m.answer)

-- connectSingle
unfoldable pub connect_single : SshLogin → Meets → Dialing → Single × Dialing
unfolding get_ssm_client use_client
connect_single cfg m d =
    let (client, kept) = get_ssm_client d.client m.made_client in
    use_client cfg m (record d { client = kept }) client
