-- ===== src/Ssh.antt =====
-- Connect of internal/ssh/client.go. The agent, the file system and golang.org/x/crypto/ssh are
-- arguments: what each call comes to.
pub mod Answers
use session_proxy.Prelude.{
  ℕ, ◌≡◌, ◌≢◌, ◌<◌, ◌⊎◌, inl, inr, refl, Bool, true, false, ◌&&◌, not, List, [], ◌∷◌, ◌++◌, Option,
  none, some, ltb, arith, if◌then◌else◌, take, drop, Bool-cases, Option-cases, length,
}
use session_proxy.Prelude.Bytes.{Bytes, codes, is_nil, is_nil_iff, not_nil_iff, eq_bytes}

-- expandPath, with the home directory where user.Current finds one.
unfoldable pub expand_path : Option Bytes → Bytes → Bytes
expand_path home path =
    if eq_bytes (take 2 path) (codes "~/")
    then elim home [ none ↦ path | some dir ↦ dir ++ drop 1 path ]
    else path

-- Config
pub record SshLogin : Type 0 where
  pub user : Bytes
  pub private_key_path : Bytes

-- The agent: whether SSH_AUTH_SOCK is set, whether the dial succeeds, and the keys that it has, none
-- for an error. A key file by its path, none where it cannot be read, and whether a key can be
-- parsed. How NewClientConn ends, none where it does not within half a minute.
pub record Machine : Type 0 where
  pub auth_sock : Bool
  pub agent_dialled : Bool
  pub signers : Option ℕ
  pub home : Option Bytes
  pub read_file : Bytes → Option Bytes
  pub parses : Bytes → Bool
  pub handshake : Option Bool

pub data AuthMethod : Type 0 where
  agent_keys : AuthMethod
  private_key : Bytes → AuthMethod

pub data SshError : Type 0 where
  key_not_read key_not_parsed no_authentication handshake_refused handshake_timed_out : SshError

-- What a call leaves: the client's methods of authentication or an error, whether the connection to
-- the agent is open, and whether Connect itself has closed the connection that it was given.
pub record Connected : Type 0 where
  pub answer : Option SshError
  pub methods : List AuthMethod
  pub agent_open : Bool
  pub conn_closed : Bool

-- Whether the agent has keys.
unfoldable pub has_signers : Option ℕ → Bool
has_signers none = false
has_signers (some n) = ltb 0 n

-- The agent's part: it stays open for its keys, and is closed where it has none.
unfoldable pub try_agent : Machine → Connected
unfolding has_signers
try_agent m =
    if m.auth_sock && m.agent_dialled && has_signers m.signers
    then record { answer = none; methods = agent_keys ∷ []; agent_open = true; conn_closed = false }
    else record { answer = none; methods = []; agent_open = false; conn_closed = false }

-- The private key's part.
unfoldable pub try_private_key : Machine → SshLogin → Connected → Connected
unfolding expand_path
try_private_key m cfg c =
    if is_nil cfg.private_key_path
    then c
    else elim (m.read_file (expand_path m.home cfg.private_key_path)) [
      | none ↦ record c { answer = some key_not_read }
      | some key ↦
          if m.parses key
          then record c { methods = c.methods ++ (private_key key ∷ []) }
          else record c { answer = some key_not_parsed }
    ]

-- The handshake.
unfoldable pub shake_hands : Machine → Connected → Connected
shake_hands m c =
    if is_nil c.methods then record c { answer = some no_authentication } else elim m.handshake [
      | some true ↦ c
      | some false ↦ record c { answer = some handshake_refused }
      | none ↦ record c { answer = some handshake_timed_out; conn_closed = true }
    ]

-- Connect behind the key, where no error has come.
unfoldable pub proceed : Machine → Connected → Connected
unfolding shake_hands
proceed m c = elim c.answer [ none ↦ shake_hands m c | some e ↦ c ]

-- Connect, with what it defers.
unfoldable pub connect : Machine → SshLogin → Connected
unfolding try_agent try_private_key proceed
connect m cfg = record (proceed m (try_private_key m cfg (try_agent m))) { agent_open = false }
