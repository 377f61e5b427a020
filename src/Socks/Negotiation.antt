-- ===== src/Socks/Negotiation.antt =====
-- The negotiation of internal/socks5/server.go: handshake, authenticateUserPass, readRequest and
-- the replies.
pub mod Sound
pub mod Complete
use session_proxy.Prelude.{
  ℕ, zero, suc, ◌+◌, ◌≡◌, Bool, true, false, ◌&&◌, ◌||◌, not, List, [], ◌∷◌, ◌++◌, Option, none,
  some, ◌==◌, ite, ltb, if◌then◌else◌,
}
use session_proxy.Prelude.Bytes.{Byte, Bytes, bytes_discrete}
use session_proxy.Socks.Const.{
  version, method_no_auth, method_user_pass, method_no_acceptable, rep_address_not_supported,
}
use session_proxy.Socks.Conn.{
  Conn, Exec, Result, ok, err, ◌>>=◌, ◌>>◌, pure, raise, read_full, write, write_ignored, byte_at,
  read_header, unsupported_version, read_methods, no_user_pass, no_acceptable, read_auth_header,
  unsupported_auth_version, invalid_username_length, read_username, read_password_length,
  read_password, authentication_failed, read_request_header,
}
use session_proxy.Socks.Addr.{Addr, Net, zero_addr, read_addr, write_to}

pub record AuthConfig : Type 0 where
  pub user : Bytes
  pub pass : Bytes

pub record Request : Type 0 where
  pub cmd : Byte
  pub addr : Addr

-- sendAuthReply
unfoldable pub send_auth_reply : Byte → Exec (Unit {0})
send_auth_reply status = write_ignored (0x01 ∷ status ∷ [])

-- The checks of the credentials; the loop over the methods is `offers`.
unfoldable pub check_credentials : AuthConfig → Bytes → Bytes → Exec (Unit {0})
check_credentials auth username password =
    ite (bytes_discrete username auth.user)
      (ite (bytes_discrete password auth.pass) (send_auth_reply 0x00)
        (do send_auth_reply 0x01; raise authentication_failed))
      (do send_auth_reply 0x01; raise authentication_failed)

-- authenticateUserPass from the user name on.
unfoldable pub read_user_pass : AuthConfig → ℕ → Exec (Unit {0})
read_user_pass auth ulen = do
  username ← read_full ulen read_username
  plen_buf ← read_full 1 read_password_length
  password ← read_full (byte_at 0 plen_buf) read_password
  check_credentials auth username password

-- The check of the user name's length.
unfoldable pub read_credentials : AuthConfig → ℕ → Exec (Unit {0})
read_credentials auth ulen =
    if ulen == 0 || ltb 255 ulen
    then (do send_auth_reply 0x01; raise invalid_username_length)
    else read_user_pass auth ulen

-- The check of the version of the sub-negotiation.
unfoldable pub check_auth_header : AuthConfig → Bytes → Exec (Unit {0})
check_auth_header auth header =
    if byte_at 0 header == 0x01
    then read_credentials auth (byte_at 1 header)
    else (do send_auth_reply 0x01; raise unsupported_auth_version)

-- authenticateUserPass
unfoldable pub authenticate_user_pass : AuthConfig → Exec (Unit {0})
authenticate_user_pass auth = do
  header ← read_full 2 read_auth_header
  check_auth_header auth header

unfoldable pub offers : Byte → Bytes → Bool
offers method [] = false
offers method (m ∷ methods) = m == method || offers method methods

unfoldable pub is_empty : Bytes → Bool
is_empty [] = true
is_empty (b ∷ bs) = false

-- s.auth != nil && s.auth.User != ""
unfoldable pub requires_auth : Option AuthConfig → Option AuthConfig
unfolding is_empty
requires_auth none = none
requires_auth (some auth) = if is_empty auth.user then none else some auth

-- The choice of the method.
unfoldable pub negotiate : Option AuthConfig → Bytes → Exec (Unit {0})
negotiate (some auth) methods =
    if offers method_user_pass methods
    then (do write (version ∷ method_user_pass ∷ []); authenticate_user_pass auth)
    else (do write_ignored (version ∷ method_no_acceptable ∷ []); raise no_user_pass)
negotiate none methods =
    if offers method_no_auth methods
    then write (version ∷ method_no_auth ∷ [])
    else (do write_ignored (version ∷ method_no_acceptable ∷ []); raise no_acceptable)

-- The check of the version, and the methods that the client offers.
unfoldable pub check_header : Option AuthConfig → Bytes → Exec (Unit {0})
check_header auth header =
    if byte_at 0 header == version
    then (do
      methods ← read_full (byte_at 1 header) read_methods
      negotiate (requires_auth auth) methods)
    else raise unsupported_version

-- Server.handshake
unfoldable pub handshake : Option AuthConfig → Exec (Unit {0})
handshake auth = do header ← read_full 2 read_header; check_header auth header

-- `bind.WriteTo(conn)`; its error is dropped where the reply's is.
unfoldable pub send_reply : Net → Byte → Option Addr → Exec (Unit {0})
send_reply net rep bind = do
  write (version ∷ rep ∷ 0x00 ∷ [])
  elim (write_to net (elim bind [ none ↦ zero_addr | some a ↦ a ])) [
    | none ↦ raise session_proxy.Socks.Conn.unsupported_address_type
    | some bytes ↦ write bytes
  ]

-- Server.readRequest: any error behind the header is answered with `address not supported`.
answer_address_error : Net → Result Addr × Conn → Result Addr × Conn
answer_address_error net (ok a, c) = (ok a, c)
answer_address_error net (err e, c) = (err e, (send_reply net rep_address_not_supported none c).1)

unfoldable pub read_request : Net → Exec Request
unfolding answer_address_error
read_request net = do
  header ← read_full 3 read_request_header
  if byte_at 0 header == version
      then (do
        addr ← (λ c. answer_address_error net (read_addr c))
        pure (record { cmd = byte_at 1 header; addr = addr }))
      else raise unsupported_version
