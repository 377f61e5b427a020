-- ===== src/Socks/Negotiation/Complete.antt =====
-- What handshake of internal/socks5/server.go answers to a client that speaks the protocol.
use session_proxy.Prelude.{
  ◌⊎◌, ℕ, suc, ◌<◌, ◌≤◌, ◌≡◌, ◌≢◌, refl, ◌∙◌, true, false, [], ◌∷◌, ◌++◌, Option, none, some,
  if◌then◌else◌, arith, length,
}
use session_proxy.Prelude.Bytes.{Bytes}
use session_proxy.Socks.Const.{version, method_no_auth, method_user_pass, method_no_acceptable}
use session_proxy.Socks.Conn.{
  Conn, ok, err, continue, write, write_ignored, read_full-append, read_header, read_methods,
  read_auth_header, read_username, read_password_length, read_password, authentication_failed,
  no_acceptable,
}
use session_proxy.Socks.Negotiation.{
  AuthConfig, read_user_pass, send_auth_reply, check_credentials, read_credentials,
  authenticate_user_pass, check_auth_header, check_header, offers, is_empty, requires_auth,
  negotiate, handshake,
}
use session_proxy.Socks.Negotiation.Sound.{credentials, greeting}

abbrev at : Bytes → Bytes → ℕ → Conn
at input out w = record { input = input; output = out; writes_left = w }

read_user_pass-credentials :
    (auth sent : AuthConfig) (rest out : Bytes) (w : ℕ)
    → read_user_pass auth (length sent.user) (at (credentials sent rest) out w)
      ≡ check_credentials auth sent.user sent.pass (at rest out w)
unfolding read_user_pass
read_user_pass-credentials auth sent rest out w = rw (
  read_full-append (length sent.user) read_username sent.user
      (length sent.pass ∷ (sent.pass ++ rest)) out w refl,
  continue,
  read_full-append 1 read_password_length (length sent.pass ∷ []) (sent.pass ++ rest) out w refl,
  read_full-append (length sent.pass) read_password sent.pass rest out w refl,
)

authenticate-credentials :
    (auth sent : AuthConfig) (rest out : Bytes) (w : ℕ)
    → 0 < length sent.user
    → length sent.user ≤ 255
    → authenticate_user_pass auth (at (0x01 ∷ length sent.user ∷ credentials sent rest) out w)
      ≡ check_credentials auth sent.user sent.pass (at rest out w)
unfolding authenticate_user_pass check_auth_header read_credentials
authenticate-credentials auth sent rest out w h k =
    rw
      (
        read_full-append 2 read_auth_header (0x01 ∷ length sent.user ∷ []) (credentials sent rest)
            out w refl,
        continue,
      )
      (ground (arith, read_user_pass-credentials auth sent rest out w))

handshake-greeting :
    (auth : Option AuthConfig) (methods rest out : Bytes) (w : ℕ)
    → handshake auth (at (greeting methods rest) out w)
      ≡ negotiate (requires_auth auth) methods (at rest out w)
unfolding handshake check_header
handshake-greeting auth methods rest out w = rw (
  read_full-append 2 read_header (version ∷ length methods ∷ []) (methods ++ rest) out w refl,
  continue,
  read_full-append (length methods) read_methods methods rest out w refl,
)

module _ (auth sent : AuthConfig) (named : is_empty auth.user ≡ false) (methods rest out : Bytes)
    (w : ℕ) (offered : offers method_user_pass methods ≡ true) (some_name : 0 < length sent.user)
    (short_name : length sent.user ≤ 255) where
  abbrev client : Conn
  client = at (greeting methods (0x01 ∷ length sent.user ∷ credentials sent rest)) out (suc (suc w))

  handshake-credentials :
      handshake (some auth) client
      ≡ check_credentials auth sent.user sent.pass
          (at rest (out ++ (version ∷ method_user_pass ∷ [])) (suc w))
  handshake-credentials =
      handshake-greeting (some auth) methods _ out (suc (suc w))
      ∙ unfold requires_auth in
        rw named (
          unfold negotiate write in
          rw offered (authenticate-credentials auth sent rest _ (suc w) some_name short_name))

  handshake_accepts :
      sent.user ≡ auth.user
      → sent.pass ≡ auth.pass
      → handshake (some auth) client
        ≡ (ok tt, at rest ((out ++ (version ∷ method_user_pass ∷ [])) ++ (0x01 ∷ 0x00 ∷ [])) w)
  handshake_accepts u p =
      handshake-credentials
      ∙ unfold check_credentials send_auth_reply write_ignored write in ground (arith, u, p)

  handshake_rejects :
      (sent.user ≢ auth.user) ⊎ (sent.pass ≢ auth.pass)
      → handshake (some auth) client ≡ (
        err authentication_failed,
        at rest ((out ++ (version ∷ method_user_pass ∷ [])) ++ (0x01 ∷ 0x01 ∷ [])) w,
      )
  handshake_rejects other =
      handshake-credentials
      ∙ unfold check_credentials send_auth_reply write_ignored write in ground (arith, other)

  -- A client that offers the user name method and sends credentials is let in exactly where they are
  -- the configured ones: then success is replied. Where the name or the password is another, the
  -- failure reply is sent and the handshake fails. The input behind the credentials is untouched.
  pub handshake_decides :
      (sent.user ≡ auth.user
        → sent.pass ≡ auth.pass
        → handshake (some auth) client
          ≡ (ok tt, at rest ((out ++ (version ∷ method_user_pass ∷ [])) ++ (0x01 ∷ 0x00 ∷ [])) w))
      × ((sent.user ≢ auth.user) ⊎ (sent.pass ≢ auth.pass)
          → handshake (some auth) client ≡ (
            err authentication_failed,
            at rest ((out ++ (version ∷ method_user_pass ∷ [])) ++ (0x01 ∷ 0x01 ∷ [])) w,
          ))
  handshake_decides = (handshake_accepts, handshake_rejects)

-- With no credentials configured, the answer to a greeting is `no authentication` where the client
-- offers it, and else the refusal of all methods.
handshake_without_auth :
    (methods rest out : Bytes) (w : ℕ)
    → handshake none (at (greeting methods rest) out (suc w)) ≡ (
        if offers method_no_auth methods
        then (ok tt, at rest (out ++ (version ∷ method_no_auth ∷ [])) w)
        else (err no_acceptable, at rest (out ++ (version ∷ method_no_acceptable ∷ [])) w))
unfolding requires_auth negotiate write_ignored write
handshake_without_auth methods rest out w =
    handshake-greeting none methods rest out (suc w) ∙ ground arith
