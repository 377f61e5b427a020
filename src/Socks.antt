-- ===== src/Socks.antt =====
-- internal/socks5: the SOCKS5 server, its connections, addresses, negotiation and counters.
pub mod Const
pub mod Conn
pub mod Addr
pub mod Negotiation
pub mod Server
pub mod Relay
pub mod Watching
