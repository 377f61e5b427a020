-- ===== src/Socks/Addr.antt =====
-- internal/socks5/addr.go.
pub mod RoundTrip
use session_proxy.Prelude.{
  ℕ, zero, suc, ◌+◌, ◌%◌, ◌^◌, ◌<◌, ◌≤◌, ◌≡◌, Bool, List, [], ◌∷◌, ◌++◌, Option, none, some, ◌==◌,
  if◌then◌else◌, length, take, drop, replicate,
}
use session_proxy.Prelude.Bytes.{Byte, Bytes, be, from_be}
use session_proxy.Message.Encode.{copy}
use session_proxy.Socks.Const.{atyp_ipv4, atyp_domain, atyp_ipv6}
use session_proxy.Socks.Conn.{
  Exec, ◌>>=◌, pure, raise, read_full, byte_at, read_atyp, read_ipv4, read_ipv6, read_domain_length,
  read_domain, unsupported_address_type, read_port,
}

-- A nil net.IP is the empty list.
pub record Addr : Type 0 where
  pub atyp : Byte
  pub ip : Bytes
  pub domain : Bytes
  pub port : ℕ

-- package net: IP.To4 and IP.To16, empty for nil.
pub record Net : Type 0 where
  pub to4 : Bytes → Bytes
  pub to16 : Bytes → Bytes

-- A slice of the right length is its own answer, as the documentation of package net has it.
pub record NetLaws (net : Net) : Type 0 where
  pub to4_four : (ip : Bytes) → length ip ≡ 4 → net.to4 ip ≡ ip
  pub to16_sixteen : (ip : Bytes) → length ip ≡ 16 → net.to16 ip ≡ ip

-- The part of ReadAddr that depends on the type: the IP and the domain.
unfoldable pub read_host : Byte → Exec (Bytes × Bytes)
read_host atyp =
    if atyp == atyp_ipv4
    then (do ip ← read_full 4 read_ipv4; pure (ip, []))
    else if atyp == atyp_ipv6
    then (do ip ← read_full 16 read_ipv6; pure (ip, []))
    else if atyp == atyp_domain
    then (do
      len_buf ← read_full 1 read_domain_length
      domain ← read_full (byte_at 0 len_buf) read_domain
      pure ([], domain))
    else raise unsupported_address_type

-- ReadAddr
unfoldable pub read_addr : Exec Addr
unfolding read_host
read_addr = do
  atyp ← read_full 1 read_atyp
  (ip, domain) ← read_host (byte_at 0 atyp)
  port_buf ← read_full 2 read_port
  pure (record { atyp = byte_at 0 atyp; ip = ip; domain = domain; port = from_be 0 port_buf })

module _ (net : Net) where
  -- The buffer of WriteTo; `none` is the error for an unsupported type.
  unfoldable pub write_to : Addr → Option Bytes
  write_to a =
      if a.atyp == atyp_ipv4
      then some (atyp_ipv4 ∷ copy (replicate 4 0) (take 4 (net.to4 a.ip)) ++ be 2 a.port)
      else if a.atyp == atyp_ipv6
      then some (atyp_ipv6 ∷ copy (replicate 16 0) (take 16 (net.to16 a.ip)) ++ be 2 a.port)
      else if a.atyp == atyp_domain
      then some (atyp_domain ∷ length a.domain % 256 ∷ a.domain ++ be 2 a.port)
      else none

  -- AddrFromNetAddr on a *net.TCPAddr, by what To4 made of its IP.
  unfoldable pub from_to4 : Bytes → Bytes → ℕ → Addr
  from_to4 [] ip port = record {
    atyp = atyp_ipv6;
    ip = net.to16 ip;
    domain = [];
    port = port % 2 ^ 16;
  }
  from_to4 (b ∷ bs) ip port = record {
    atyp = atyp_ipv4;
    ip = b ∷ bs;
    domain = [];
    port = port % 2 ^ 16;
  }

  unfoldable pub addr_from_tcp : Bytes → ℕ → Addr
  unfolding from_to4
  addr_from_tcp ip port = from_to4 (net.to4 ip) ip port

-- AddrFromNetAddr on any other address, and the bind address of a refusal.
abbrev pub zero_addr : Addr
zero_addr = record { atyp = atyp_ipv4; ip = replicate 4 0; domain = []; port = 0 }
