-- ===== src/Socks/Server.antt =====
-- The serving side of internal/socks5/server.go: the limit of connections, the counters, the whole
-- life of a client connection, and the accept loop.
pub mod Limit
pub mod Delays
pub mod Outcome
use session_proxy.Prelude.{
  ℕ, zero, suc, ◌+◌, ◌-◌, ◌*◌, ◌≡◌, Bool, true, false, List, [], ◌∷◌, ◌++◌, Option, none, some,
  ◌==◌, ltb, if◌then◌else◌,
}
use session_proxy.Prelude.Bytes.{Byte, Bytes}
use session_proxy.Prelude.Int64.{Int64, slt, inc, sub64}
use session_proxy.Socks.Const.{
  cmd_connect, rep_success, rep_general_failure, rep_ttl_expired, rep_connection_refused,
  rep_network_unreachable, rep_host_unreachable, rep_command_not_supported,
}
use session_proxy.Socks.Conn.{Conn, Result, ok, err}
use session_proxy.Socks.Addr.{Addr, Net, zero_addr, addr_from_tcp}
use session_proxy.Socks.Negotiation.{AuthConfig, Request, handshake, send_reply, read_request}

-- The atomic counters, which wrap at 2^64, without activeConn.
pub record Counters : Type 0 where
  pub accepted_total : ℕ
  pub conn_limit_rejects_total : ℕ
  pub handshake_errors_total : ℕ
  pub request_errors_total : ℕ
  pub dial_errors_total : ℕ
  pub connect_success_total : ℕ
  pub relay_closed_total : ℕ
  pub unsupported_cmd_total : ℕ

abbrev pub default_max_concurrent_conns : ℕ
default_max_concurrent_conns = 2048

-- resolveMaxConns; the empty value is an unset variable, and atoi is strconv.Atoi.
unfoldable pub resolve_max_conns : (Bytes → Option Int64) → Bytes → Int64 → Int64
resolve_max_conns atoi value configured = if slt 0 configured then configured else elim value [
  | [] ↦ default_max_concurrent_conns
  | b ∷ bs ↦ elim (atoi (b ∷ bs)) [
    | none ↦ default_max_concurrent_conns
    | some n ↦ if slt 0 n then n else 0
  ]
]

-- connTokens is nil where maxConns is 0; `tokens` says how many it holds.
pub record Server : Type 0 where
  pub max_conns : ℕ
  pub tokens : ℕ
  pub active : Int64
  pub temp_delay : ℕ
  pub counters : Counters

-- The send to connTokens, and the addition to activeConn.
unfoldable pub take_token : Server → Bool × Server
take_token s =
    if s.max_conns == 0
    then (true, s)
    else if ltb s.tokens s.max_conns
    then (true, record s { tokens = s.tokens + 1 })
    else (false, s)

unfoldable pub add_active : Server → Server
add_active s = record s { active = inc s.active }

-- tryAcquireConn
unfoldable pub try_acquire_conn : Server → Bool × Server
unfolding take_token add_active
try_acquire_conn s =
    let (taken, t) = take_token s in if taken then (true, add_active t) else (false, t)

-- The receive from connTokens, which is skipped where it is empty, and the subtraction.
unfoldable pub return_token : Server → Server
return_token s = if s.max_conns == 0 then s else record s { tokens = s.tokens - 1 }

unfoldable pub sub_active : Server → Server
sub_active s = record s { active = sub64 s.active 1 }

-- releaseConn
unfoldable pub release_conn : Server → Server
unfolding return_token sub_active
release_conn s = sub_active (return_token s)

pub data Errno : Type 0 where
  econnrefused enetunreach ehostunreach other_errno : Errno

-- What sendReplyError sees of an error: whether it is a timeout, and its errno.
pub record DialError : Type 0 where
  pub timeout : Bool
  pub errno : Option Errno

-- sendReplyError's choice of the reply.
unfoldable pub reply_code : DialError → Byte
reply_code e =
    let rep = if e.timeout then rep_ttl_expired else rep_general_failure in
    elim e.errno [
      | none ↦ rep
      | some errno ↦ elim errno [
        | econnrefused ↦ rep_connection_refused
        | enetunreach ↦ rep_network_unreachable
        | ehostunreach ↦ rep_host_unreachable
        | other_errno ↦ rep
      ]
    ]

-- What Dial gives: a connection with its local address, or an error.
pub data Dialed : Type 0 where
  connected_tcp : Bytes → ℕ → Dialed
  connected_other : Dialed
  refused : DialError → Dialed

-- Dial, and the two copies of relay until both ends are done.
pub record Remote : Type 0 where
  pub dial : Addr → Dialed
  pub relay : Addr → Conn → Conn

module _ (net : Net) (remote : Remote) where
  unfoldable pub send_reply_error : DialError → Conn → Conn
  unfolding reply_code
  send_reply_error e c = (send_reply net (reply_code e) none c).1

  -- handleConnect behind the reply about success.
  relay_replied : Addr → Result (Unit {0}) × Conn → Counters → Conn × Counters
  relay_replied target (err e, c) n = (c, n)
  relay_replied target (ok u, c) n = (
    remote.relay target c,
    record n {
      connect_success_total = inc n.connect_success_total;
      relay_closed_total = inc n.relay_closed_total;
    },
  )

  -- handleConnect behind the dial.
  answer_dialed : Addr → Dialed → Conn → Counters → Conn × Counters
  unfolding relay_replied send_reply_error
  answer_dialed target (connected_tcp ip port) c n =
      relay_replied target (send_reply net rep_success (some (addr_from_tcp net ip port)) c) n
  answer_dialed target connected_other c n =
      relay_replied target (send_reply net rep_success (some zero_addr) c) n
  answer_dialed target (refused e) c n =
      (send_reply_error e c, record n { dial_errors_total = inc n.dial_errors_total })

  -- handleConnect
  unfoldable pub handle_connect : Request → Conn → Counters → Conn × Counters
  unfolding answer_dialed
  handle_connect req c n = answer_dialed req.addr (remote.dial req.addr) c n

  -- handleConn behind readRequest.
  serve_request : Result Request × Conn → Counters → Conn × Counters
  unfolding handle_connect
  serve_request (err e, c) n = (c, record n { request_errors_total = inc n.request_errors_total })
  serve_request (ok req, c) n = if req.cmd == cmd_connect then handle_connect req c n else (
    (send_reply net rep_command_not_supported none c).1,
    record n { unsupported_cmd_total = inc n.unsupported_cmd_total },
  )

  -- handleConn behind the handshake.
  serve_negotiated : Result (Unit {0}) × Conn → Counters → Conn × Counters
  unfolding serve_request
  serve_negotiated (err e, c) n =
      (c, record n { handshake_errors_total = inc n.handshake_errors_total })
  serve_negotiated (ok u, c) n = serve_request (read_request net c) n

  -- handleConn
  unfoldable pub handle_conn : Option AuthConfig → Conn → Counters → Conn × Counters
  unfolding serve_negotiated
  handle_conn auth c n = serve_negotiated (handshake auth c) n

abbrev pub millisecond : ℕ
millisecond = 1000000

-- The pause after a temporary error of Accept.
unfoldable pub next_temp_delay : ℕ → ℕ
next_temp_delay delay =
    if delay == 0
    then 5 * millisecond
    else if ltb (1000 * millisecond) (delay * 2)
    then 1000 * millisecond
    else delay * 2

unfoldable pub accept_failed : Server → Server
unfolding next_temp_delay
accept_failed s = record s { temp_delay = next_temp_delay s.temp_delay }

unfoldable pub count_accepted : Server → Server
count_accepted s = record s {
  temp_delay = 0;
  counters = record s.counters { accepted_total = inc s.counters.accepted_total };
}

unfoldable pub count_reject : Server → Server
count_reject s = record s {
  counters = record s.counters {
    conn_limit_rejects_total = inc s.counters.conn_limit_rejects_total;
  };
}

-- A connection of the accept loop, and whether a handler starts for it.
unfoldable pub accept_conn : Server → Bool × Server
unfolding count_accepted count_reject try_acquire_conn
accept_conn s = elim (try_acquire_conn (count_accepted s)).0 [
  | true ↦ (true, (try_acquire_conn (count_accepted s)).1)
  | false ↦ (false, count_reject (try_acquire_conn (count_accepted s)).1)
]
