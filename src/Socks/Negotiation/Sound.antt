-- ===== src/Socks/Negotiation/Sound.antt =====
-- What a client must have sent when handshake of internal/socks5/server.go succeeds.
use session_proxy.Prelude.{
  ℕ, ◌<◌, ◌≤◌, ◌≡◌, refl, sym, ap, ◌∙◌, inl, inr, true, false, ◌||◌, [], ◌∷◌, ◌++◌, Option, some,
  ◌==◌, ==_iff, ltb, arith, length, Bool-cases,
}
use session_proxy.Prelude.Bytes.{Byte, Bytes}
use session_proxy.Socks.Const.{version, method_user_pass}
use session_proxy.Socks.Conn.{
  Conn, ok, read_full, write, write_ignored, byte_at, read_full-ok, >>=-eq-ok, read_header,
  read_methods, read_auth_header, read_username, read_password_length, read_password,
}
use session_proxy.Socks.Negotiation.{
  AuthConfig, read_user_pass, send_auth_reply, check_credentials, read_credentials,
  check_auth_header, check_header, authenticate_user_pass, offers, is_empty, requires_auth,
  negotiate, handshake,
}

two_bytes : (bs : Bytes) → length bs ≡ 2 → bs ≡ byte_at 0 bs ∷ byte_at 1 bs ∷ []
two_bytes [] h = absurd (omega arith)
two_bytes (a ∷ []) h = absurd (omega arith)
two_bytes (a ∷ b ∷ []) h = refl
two_bytes (a ∷ b ∷ c ∷ bs) h = absurd (omega arith)

one_byte : (bs : Bytes) → length bs ≡ 1 → bs ≡ byte_at 0 bs ∷ []
one_byte [] h = absurd (omega arith)
one_byte (a ∷ []) h = refl
one_byte (a ∷ b ∷ bs) h = absurd (omega arith)

-- A write reads nothing.
write-input : (bs : Bytes) (c c' : Conn) → write bs c ≡ (ok tt, c') → c'.input ≡ c.input
unfolding write
write-input bs c c' e = ground (arith, e)

reply-input :
    (status : Byte) (c c' : Conn) → send_auth_reply status c ≡ (ok tt, c') → c'.input ≡ c.input
unfolding send_auth_reply write_ignored
reply-input status c c' e = ground (arith, e)

check_credentials-ok :
    (auth : AuthConfig) (username password : Bytes) (c c' : Conn)
    → check_credentials auth username password c ≡ (ok tt, c')
    → (username ≡ auth.user) × (password ≡ auth.pass) × (c'.input ≡ c.input)
unfolding check_credentials send_auth_reply write_ignored
check_credentials-ok auth username password c c' e = ground (arith, e)

-- The credentials on the wire, with their lengths.
abbrev pub credentials : AuthConfig → Bytes → Bytes
credentials auth rest = auth.user ++ ((length auth.pass ∷ []) ++ (auth.pass ++ rest))

join_credentials :
    (auth : AuthConfig) (username plen_buf password in0 in1 in2 in3 : Bytes)
    → in0 ≡ username ++ in1
    → in1 ≡ plen_buf ++ in2
    → in2 ≡ password ++ in3
    → length plen_buf ≡ 1
    → length password ≡ byte_at 0 plen_buf
    → username ≡ auth.user
    → password ≡ auth.pass
    → in0 ≡ credentials auth in3
join_credentials auth username plen_buf password in0 in1 in2 in3 e f g h k su sp =
    rw (e, f, one_byte plen_buf h, ← k, g, su, sp)

join_header :
    (header in0 in1 : Bytes) (a b : ℕ)
    → in0 ≡ header ++ in1
    → length header ≡ 2
    → byte_at 0 header ≡ a
    → byte_at 1 header ≡ b
    → in0 ≡ a ∷ b ∷ in1
join_header header in0 in1 a b e h ea eb = rw (e, two_bytes header h, ea, eb)

read_user_pass-ok :
    (auth : AuthConfig) (ulen : ℕ) (c c' : Conn)
    → read_user_pass auth ulen c ≡ (ok tt, c')
    → (length auth.user ≡ ulen) × (c.input ≡ credentials auth c'.input)
unfolding read_user_pass
read_user_pass-ok auth ulen c c' e =
    let (username, c1, e1, k1) = >>=-eq-ok (read_full ulen read_username) _ c c' tt e in
    let (plen_buf, c2, e2, k2) = >>=-eq-ok (read_full 1 read_password_length) _ c1 c' tt k1 in
    let (password, c3, e3, k3) =
      >>=-eq-ok (read_full (byte_at 0 plen_buf) read_password) _ c2 c' tt k2 in
    let (i1, l1, _, _) = read_full-ok ulen read_username c c1 username e1 in
    let (i2, l2, _, _) = read_full-ok 1 read_password_length c1 c2 plen_buf e2 in
    let (i3, l3, _, _) = read_full-ok (byte_at 0 plen_buf) read_password c2 c3 password e3 in
    let (su, sp, i4) = check_credentials-ok auth username password c3 c' k3 in
    (
      omega (arith, ap length su),
      rw i4 (
          join_credentials auth username plen_buf password c.input c1.input c2.input c3.input i1 i2
            i3 l2 l3 su sp),
    )

read_credentials-ok :
    (auth : AuthConfig) (ulen : ℕ) (c c' : Conn)
    → read_credentials auth ulen c ≡ (ok tt, c')
    → (0 < ulen) × (ulen ≤ 255) × (length auth.user ≡ ulen) × (c.input ≡ credentials auth c'.input)
unfolding read_credentials send_auth_reply write_ignored
read_credentials-ok auth ulen c c' e = elim (Bool-cases (ulen == 0 || ltb 255 ulen)) [
  | inl bad ↦ absurd (ground (arith, e))
  | inr good ↦
      let (l, i) = read_user_pass-ok auth ulen c c' (ground (arith, e)) in
      (ground arith, ground arith, l, i)
]

check_auth_header-ok :
    (auth : AuthConfig) (header : Bytes) (c c' : Conn)
    → check_auth_header auth header c ≡ (ok tt, c')
    → (byte_at 0 header ≡ 0x01)
      × (0 < length auth.user)
      × (length auth.user ≤ 255)
      × (length auth.user ≡ byte_at 1 header)
      × (c.input ≡ credentials auth c'.input)
unfolding check_auth_header send_auth_reply write_ignored
check_auth_header-ok auth header c c' e =
    ground (arith, read_credentials-ok auth (byte_at 1 header) c c')

authenticate_user_pass-ok :
    (auth : AuthConfig) (c c' : Conn)
    → authenticate_user_pass auth c ≡ (ok tt, c')
    → (0 < length auth.user)
      × (length auth.user ≤ 255)
      × (c.input ≡ 0x01 ∷ length auth.user ∷ credentials auth c'.input)
unfolding authenticate_user_pass
authenticate_user_pass-ok auth c c' e =
    let (header, c1, e1, k1) = >>=-eq-ok (read_full 2 read_auth_header) _ c c' tt e in
    let (i1, l1, _, _) = read_full-ok 2 read_auth_header c c1 header e1 in
    let (v, a, b, l, i) = check_auth_header-ok auth header c1 c' k1 in
    (a, b, rw (← i) (join_header header c.input c1.input 0x01 (length auth.user) i1 l1 v (sym l)))

-- The greeting of a client that offers `methods`, and what follows it.
abbrev pub greeting : Bytes → Bytes → Bytes
greeting methods rest = version ∷ length methods ∷ (methods ++ rest)

check_header-ok :
    (auth : Option AuthConfig) (header : Bytes) (c c' : Conn)
    → check_header auth header c ≡ (ok tt, c')
    → (methods : Bytes) × (c1 : Conn) × (byte_at 0 header ≡ version)
      × (length methods ≡ byte_at 1 header)
      × (c.input ≡ methods ++ c1.input)
      × (negotiate (requires_auth auth) methods c1 ≡ (ok tt, c'))
unfolding check_header
check_header-ok auth header c c' e = elim (Bool-cases (byte_at 0 header == version)) [
  | inl same ↦
      let (methods, c1, e1, k1) =
        >>=-eq-ok (read_full (byte_at 1 header) read_methods)
          (λ methods. negotiate (requires_auth auth) methods) c c' tt
          (rw (same, check_header) at e) in
      let (i, l, _, _) = read_full-ok (byte_at 1 header) read_methods c c1 methods e1 in
      (methods, c1, (==_iff _ _).0 same, l, i, k1)
  | inr other ↦ absurd (ground (arith, e, other))
]

-- A handshake that succeeds read a greeting and went on to negotiate.
handshake-ok :
    (auth : Option AuthConfig) (c c' : Conn)
    → handshake auth c ≡ (ok tt, c')
    → (methods : Bytes) × (c1 : Conn) × (c.input ≡ greeting methods c1.input)
      × (negotiate (requires_auth auth) methods c1 ≡ (ok tt, c'))
unfolding handshake
handshake-ok auth c c' e =
    let (header, c1, e1, k1) = >>=-eq-ok (read_full 2 read_header) _ c c' tt e in
    let (i1, l1, _, _) = read_full-ok 2 read_header c c1 header e1 in
    let (methods, c2, v, l, i, k) = check_header-ok auth header c1 c' k1 in
    (
      methods,
      c2,
      rw (← i) (join_header header c.input c1.input version (length methods) i1 l1 v (sym l)),
      k,
    )

negotiate-auth_ok :
    (auth : AuthConfig) (methods : Bytes) (c c' : Conn)
    → negotiate (some auth) methods c ≡ (ok tt, c')
    → (offers method_user_pass methods ≡ true)
      × ((c1 : Conn) × (c1.input ≡ c.input) × (authenticate_user_pass auth c1 ≡ (ok tt, c')))
unfolding negotiate write_ignored
negotiate-auth_ok auth methods c c' e = elim (Bool-cases (offers method_user_pass methods)) [
  | inl offered ↦
      let (u, c1, e1, k1) =
        >>=-eq-ok (write (version ∷ method_user_pass ∷ [])) (λ _. authenticate_user_pass auth) c c'
          tt (rw (offered, negotiate) at e) in
      (offered, (c1, write-input (version ∷ method_user_pass ∷ []) c c1 e1, k1))
  | inr other ↦ absurd (ground (arith, e, other))
]

-- With credentials configured, a handshake succeeds only for a client that offered the user name
-- method and then sent exactly these credentials. What it sent behind them is left to be read.
pub handshake_requires_credentials :
    (auth : AuthConfig) (c c' : Conn)
    → is_empty auth.user ≡ false
    → handshake (some auth) c ≡ (ok tt, c')
    → (methods : Bytes) × (offers method_user_pass methods ≡ true)
      × (0 < length auth.user)
      × (length auth.user ≤ 255)
      × (c.input ≡ greeting methods (0x01 ∷ length auth.user ∷ credentials auth c'.input))
handshake_requires_credentials auth c c' named e =
    let (methods, c1, i, k) = handshake-ok (some auth) c c' e in
    let (offered, (c2, i2, k2)) =
      negotiate-auth_ok auth methods c1 c' (unfold requires_auth in rw named at k) in
    let (a, b, i3) = authenticate_user_pass-ok auth c2 c' k2 in
    (methods, offered, a, b, i ∙ ap (greeting methods) (sym i2 ∙ i3))
