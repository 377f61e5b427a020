-- ===== src/Tests/Clients.antt =====
-- SOCKS5 clients.
use session_proxy.Prelude.{
  ◌<◌, ◌≤◌, ◌≡◌, ◌≢◌, ◌⊎◌, refl, true, false, [], ◌∷◌, ◌++◌, some, arith, length,
}
use session_proxy.Prelude.Bytes.{Bytes, codes}
use session_proxy.Socks.Const.{atyp_domain, method_user_pass}
use session_proxy.Socks.Conn.{Conn, ok, err, authentication_failed}
use session_proxy.Socks.Addr.{Addr, Net, NetLaws, read_addr, write_to}
use session_proxy.Socks.Addr.RoundTrip.{domain, read_addr-write_to}
use session_proxy.Socks.Negotiation.{AuthConfig, handshake, offers, is_empty}
use session_proxy.Socks.Negotiation.Sound.{greeting, credentials, handshake_requires_credentials}
use session_proxy.Socks.Negotiation.Complete.{handshake_decides}

abbrev net : Net
net = record { to4 = λ ip. ip; to16 = λ ip. ip }

net-NetLaws : NetLaws net
net-NetLaws = record { to4_four = λ ip h. refl; to16_sixteen = λ ip h. refl }

abbrev host : Addr
host = record { atyp = atyp_domain; ip = []; domain = codes "db.internal"; port = 5432 }

abbrev conn : Bytes → Conn
conn input = record { input = input; output = []; writes_left = 9 }

read_addr-write_to_example :
    (bytes : Bytes) × (write_to net host ≡ some bytes)
    × (read_addr (conn (bytes ++ (1 ∷ 2 ∷ []))) ≡ (ok host, conn (1 ∷ 2 ∷ [])))
read_addr-write_to_example =
    read_addr-write_to net net-NetLaws (1 ∷ 2 ∷ []) [] 9 host (domain (omega arith) (omega arith))

abbrev admin : AuthConfig
admin = record { user = codes "admin"; pass = codes "secret" }

abbrev guest : AuthConfig
guest = record { user = codes "admin"; pass = codes "guess" }

admin_named : is_empty admin.user ≡ false
unfolding is_empty
admin_named = refl

offered : offers method_user_pass (0 ∷ 2 ∷ []) ≡ true
unfolding offers
offered = refl

abbrev login : AuthConfig → Conn
login who = conn (greeting (0 ∷ 2 ∷ []) (0x01 ∷ length who.user ∷ credentials who (5 ∷ [])))

abbrev welcomed : Conn
welcomed = record { input = 5 ∷ []; output = 5 ∷ 2 ∷ 1 ∷ 0 ∷ []; writes_left = 7 }

welcome : handshake (some admin) (login admin) ≡ (ok tt, welcomed)
welcome =
    (handshake_decides admin admin admin_named (0 ∷ 2 ∷ []) (5 ∷ []) [] 7 offered (omega arith)
        (omega arith)).0
      refl refl

handshake_decides_example :
    (guest.user ≡ admin.user
      → guest.pass ≡ admin.pass
      → handshake (some admin) (login guest) ≡ (ok tt, welcomed))
    × ((guest.user ≢ admin.user) ⊎ (guest.pass ≢ admin.pass)
        → handshake (some admin) (login guest) ≡ (
          err authentication_failed,
          record { input = 5 ∷ []; output = 5 ∷ 2 ∷ 1 ∷ 1 ∷ []; writes_left = 7 },
        ))
handshake_decides_example =
    handshake_decides admin guest admin_named (0 ∷ 2 ∷ []) (5 ∷ []) [] 7 offered (omega arith)
      (omega arith)

handshake_requires_credentials_example :
    (methods : Bytes) × (offers method_user_pass methods ≡ true)
    × (0 < length admin.user)
    × (length admin.user ≤ 255)
    × ((login admin).input
        ≡ greeting methods (0x01 ∷ length admin.user ∷ credentials admin welcomed.input))
handshake_requires_credentials_example =
    handshake_requires_credentials admin (login admin) welcomed admin_named welcome
