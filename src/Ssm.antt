-- ===== src/Ssm.antt =====
-- StartSession and ResumeSession of internal/aws/ssm/client.go over what the service answers.
use session_proxy.Prelude.{Option, none, some}
use session_proxy.Prelude.Bytes.{Bytes}

-- The fields of an answer, each of which may be nil.
pub record Answer : Type 0 where
  pub stream_url : Option Bytes
  pub token_value : Option Bytes
  pub answered_id : Option Bytes

pub record SsmSession : Type 0 where
  pub token : Bytes
  pub url : Bytes
  pub session_id : Bytes

-- A session, an error, or the panic of a nil that is followed.
pub data Started : Type 0 where
  session : SsmSession → Started
  not_started : Started
  missing_fields : Started
  nil_followed : Started

-- StartSession; none is an error of the service.
unfoldable pub start_session : Option Answer → Started
start_session none = not_started
start_session (some a) = elim a.stream_url [
  | none ↦ missing_fields
  | some url ↦ elim a.token_value [
    | none ↦ missing_fields
    | some token ↦ elim a.answered_id [
      | none ↦ nil_followed
      | some id ↦ session (record { token = token; url = url; session_id = id })
    ]
  ]
]

-- ResumeSession of a session.
unfoldable pub resume_session : Bytes → Option Answer → Started
resume_session id none = not_started
resume_session id (some a) = elim a.stream_url [
  | none ↦ missing_fields
  | some url ↦ elim a.token_value [
    | none ↦ missing_fields
    | some token ↦ session (record { token = token; url = url; session_id = id })
  ]
]
