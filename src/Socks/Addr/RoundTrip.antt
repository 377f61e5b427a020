-- ===== src/Socks/Addr/RoundTrip.antt =====
-- WriteTo and ReadAddr of internal/socks5/addr.go against one another.
use session_proxy.Prelude.{
  ℕ, ◌%◌, ◌^◌, ◌<◌, ◌≡◌, refl, [], ◌∷◌, ◌++◌, append_assoc, some, arith, length, take, replicate,
  take_all, length-replicate,
}
use session_proxy.Prelude.Bytes.{Bytes, be, length-be, from_be-be}
use session_proxy.Message.Encode.{copy, copy_same}
use session_proxy.Socks.Const.{atyp_ipv4, atyp_domain, atyp_ipv6}
use session_proxy.Socks.Conn.{
  Conn, ok, continue, read_full-append, read_atyp, read_ipv4, read_ipv6, read_domain_length,
  read_domain, read_port,
}
use session_proxy.Socks.Addr.{Addr, Net, NetLaws, read_addr, write_to}

-- The addresses that ReadAddr makes: one kind of host, of its length.
pub data IsAddr : Addr → Type 0 where
  ipv4 :
      {ip : Bytes} {port : ℕ}
      → length ip ≡ 4
      → port < 2 ^ 16
      → IsAddr (record { atyp = atyp_ipv4; ip = ip; domain = []; port = port })
  ipv6 :
      {ip : Bytes} {port : ℕ}
      → length ip ≡ 16
      → port < 2 ^ 16
      → IsAddr (record { atyp = atyp_ipv6; ip = ip; domain = []; port = port })
  domain :
      {name : Bytes} {port : ℕ}
      → length name < 256
      → port < 2 ^ 16
      → IsAddr (record { atyp = atyp_domain; ip = []; domain = name; port = port })

module _ (net : Net) (laws : NetLaws net) (rest out : Bytes) (w : ℕ) where
  abbrev conn : Bytes → Conn
  conn input = record { input = input; output = out; writes_left = w }

  read_ipv4_addr :
      (ip : Bytes) (port : ℕ)
      → length ip ≡ 4
      → port < 2 ^ 16
      → read_addr (conn (atyp_ipv4 ∷ (ip ++ (be 2 port ++ rest))))
        ≡ (ok (record { atyp = atyp_ipv4; ip = ip; domain = []; port = port }), conn rest)
  unfolding read_addr
  read_ipv4_addr ip port h p = rw (
    read_full-append 1 read_atyp (atyp_ipv4 ∷ []) (ip ++ (be 2 port ++ rest)) out w refl,
    continue,
    read_full-append 4 read_ipv4 ip (be 2 port ++ rest) out w h,
    read_full-append 2 read_port (be 2 port) rest out w (length-be 2 port),
    from_be-be 2 port (omega arith),
  )

  read_ipv6_addr :
      (ip : Bytes) (port : ℕ)
      → length ip ≡ 16
      → port < 2 ^ 16
      → read_addr (conn (atyp_ipv6 ∷ (ip ++ (be 2 port ++ rest))))
        ≡ (ok (record { atyp = atyp_ipv6; ip = ip; domain = []; port = port }), conn rest)
  unfolding read_addr
  read_ipv6_addr ip port h p = rw (
    read_full-append 1 read_atyp (atyp_ipv6 ∷ []) (ip ++ (be 2 port ++ rest)) out w refl,
    continue,
    read_full-append 16 read_ipv6 ip (be 2 port ++ rest) out w h,
    read_full-append 2 read_port (be 2 port) rest out w (length-be 2 port),
    from_be-be 2 port (omega arith),
  )

  read_domain_addr :
      (name : Bytes) (n port : ℕ)
      → length name ≡ n
      → port < 2 ^ 16
      → read_addr (conn (atyp_domain ∷ n ∷ (name ++ (be 2 port ++ rest))))
        ≡ (ok (record { atyp = atyp_domain; ip = []; domain = name; port = port }), conn rest)
  unfolding read_addr
  read_domain_addr name n port h p = rw (
    read_full-append 1 read_atyp (atyp_domain ∷ []) (n ∷ (name ++ (be 2 port ++ rest))) out w refl,
    continue,
    read_full-append 1 read_domain_length (n ∷ []) (name ++ (be 2 port ++ rest)) out w refl,
    read_full-append n read_domain name (be 2 port ++ rest) out w h,
    read_full-append 2 read_port (be 2 port) rest out w (length-be 2 port),
    from_be-be 2 port (omega arith),
  )

  write_ip :
      (n : ℕ) (ip out' : Bytes)
      → out' ≡ ip
      → length ip ≡ n
      → copy (replicate n 0) (take n out') ≡ ip
  write_ip n ip out' e h =
      rw (e, take_all n ip (omega arith))
        (copy_same (replicate n 0) ip (omega (arith, length-replicate {A = ℕ} n 0)))

  -- An address of any kind, a domain name of at most 255 bytes, is read back from the bytes that
  -- it is written as, and the reader stops right behind them.
  pub read_addr-write_to :
      (a : Addr)
      → IsAddr a
      → (bytes : Bytes) × (write_to net a ≡ some bytes)
        × (read_addr (conn (bytes ++ rest)) ≡ (ok a, conn rest))
  unfolding write_to
  read_addr-write_to a (ipv4 {ip} {port} h p) = (
    _,
    refl,
    simp (write_ip 4 ip (net.to4 ip) (laws.to4_four ip h) h, append_assoc)
        (read_ipv4_addr ip port h p),
  )
  read_addr-write_to a (ipv6 {ip} {port} h p) = (
    _,
    refl,
    simp (write_ip 16 ip (net.to16 ip) (laws.to16_sixteen ip h) h, append_assoc)
        (read_ipv6_addr ip port h p),
  )
  read_addr-write_to a (domain {name} {port} h p) =
      (_, refl, simp append_assoc (read_domain_addr name (length name % 256) port (omega arith) p))
