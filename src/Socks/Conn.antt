-- ===== src/Socks/Conn.antt =====
-- A client connection as internal/socks5 uses it: the bytes that the client has sent and that are
-- not yet read, after which it closes; the bytes written to it; and how many more writes succeed.
use session_proxy.Prelude.{
  ℕ, zero, suc, ◌≡◌, refl, [], ◌∷◌, ◌++◌, arith, ltb, if◌then◌else◌, length, take, drop,
  take-append-drop, take-append, drop-append, length-append, length-take,
}
use session_proxy.Prelude.Bytes.{Byte, Bytes}

pub record Conn : Type 0 where
  pub input : Bytes
  pub output : Bytes
  pub writes_left : ℕ

-- Where an operation failed, in the source's words.
pub data Error : Type 0 where
  read_header unsupported_version read_methods no_user_pass no_acceptable write_failed : Error
  read_auth_header unsupported_auth_version invalid_username_length read_username : Error
  read_password_length read_password authentication_failed : Error
  read_request_header read_atyp read_ipv4 read_ipv6 read_domain_length read_domain : Error
  unsupported_address_type read_port : Error

pub data Result {ℓ} (A : Type ℓ) : Type ℓ where
  ok : A → Result A
  err : Error → Result A

-- What was read and written before an error stays so.
abbrev pub Exec : Type 0 → Type 0
Exec A = Conn → Result A × Conn

abbrev pub continue : {A B : Type 0} → (A → Exec B) → Result A × Conn → Result B × Conn
continue f (ok a, c) = f a c
continue f (err e, c) = (err e, c)

infixl 5 ◌>>=◌ ◌>>◌
abbrev pub ◌>>=◌ : {A B : Type 0} → Exec A → (A → Exec B) → Exec B
◌>>=◌ m f c = continue f (m c)

abbrev pub ◌>>◌ : {B : Type 0} → Exec (Unit {0}) → Exec B → Exec B
m >> k = m >>= λ _. k

abbrev pub pure : {A : Type 0} → A → Exec A
pure a c = (ok a, c)

abbrev pub raise : {A : Type 0} → Error → Exec A
raise e c = (err e, c)

-- io.ReadFull of n bytes: at the end of the input it fails, with the rest consumed.
unfoldable pub read_full : ℕ → Error → Exec Bytes
read_full n e c =
    if ltb (length c.input) n
    then (err e, record c { input = [] })
    else (ok (take n c.input), record c { input = drop n c.input })

-- conn.Write
unfoldable pub write : Bytes → Exec (Unit {0})
write bs c = elim c.writes_left [
  | zero ↦ (err write_failed, c)
  | suc n ↦ (ok tt, record c { output = c.output ++ bs; writes_left = n })
]

-- conn.Write with its error ignored.
unfoldable pub write_ignored : Bytes → Exec (Unit {0})
unfolding write
write_ignored bs c = (ok tt, (write bs c).1)

-- b[i]
abbrev pub byte_at : ℕ → Bytes → Byte
byte_at i [] = 0
byte_at zero (b ∷ bs) = b
byte_at (suc i) (b ∷ bs) = byte_at i bs

pub read_full-append :
    (n : ℕ) (e : Error) (xs ys out : Bytes) (w : ℕ)
    → length xs ≡ n
    → read_full n e (record { input = xs ++ ys; output = out; writes_left = w })
      ≡ (ok xs, record { input = ys; output = out; writes_left = w })
unfolding read_full
read_full-append n e xs ys out w h =
    ground (arith, length-append xs ys, take-append n xs ys, drop-append n xs ys)

-- A successful read splits its bytes off the input, and touches nothing else.
pub read_full-ok :
    (n : ℕ) (e : Error) (c c' : Conn) (bs : Bytes)
    → read_full n e c ≡ (ok bs, c')
    → (c.input ≡ bs ++ c'.input)
      × (length bs ≡ n)
      × (c'.output ≡ c.output)
      × (c'.writes_left ≡ c.writes_left)
unfolding read_full
read_full-ok n e c c' bs h = ground (arith, take-append-drop n c.input, length-take n c.input)

continue-eq-ok :
    {A B : Type 0} (r : Result A × Conn) (f : A → Exec B) (c'' : Conn) (b : B)
    → continue f r ≡ (ok b, c'')
    → (a : A) × (c' : Conn) × (r ≡ (ok a, c')) × (f a c' ≡ (ok b, c''))
continue-eq-ok (ok a, c') f c'' b h = (a, c', refl, h)
continue-eq-ok (err e, c') f c'' b h = cc

-- Inversion of a successful sequence.
pub >>=-eq-ok :
    {A B : Type 0} (m : Exec A) (f : A → Exec B) (c c'' : Conn) (b : B)
    → (m >>= f) c ≡ (ok b, c'')
    → (a : A) × (c' : Conn) × (m c ≡ (ok a, c')) × (f a c' ≡ (ok b, c''))
>>=-eq-ok m f c c'' b h = continue-eq-ok (m c) f c'' b h
