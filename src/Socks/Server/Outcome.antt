-- ===== src/Socks/Server/Outcome.antt =====
-- handleConn of internal/socks5/server.go: what a connection leaves in the counters.
use session_proxy.Prelude.{
  ℕ, arith, ◌∷◌, ◌≡◌, ◌≢◌, refl, inl, inr, [], some, ◌==◌, Option, Bool-cases,
}
use session_proxy.Prelude.Bytes.{Byte, Bytes}
use session_proxy.Prelude.Int64.{inc}
use session_proxy.Socks.Const.{cmd_connect, rep_success}
use session_proxy.Socks.Conn.{Conn, Result, Error, ok, err, write}
use session_proxy.Socks.Addr.{Addr, Net, zero_addr, write_to, from_to4, addr_from_tcp}
use session_proxy.Socks.Negotiation.{AuthConfig, Request, handshake, read_request, send_reply}
use session_proxy.Socks.Server.{
  Counters, Remote, DialError, refused, connected_tcp, connected_other, Dialed, answer_dialed,
  relay_replied, handle_connect, serve_request, serve_negotiated, handle_conn,
}

-- What comes of a client connection `c0`, with what is counted for it where the counters were `n`:
-- each outcome has the counter of its own.
module _ (net : Net) (remote : Remote) (auth : Option AuthConfig) (c0 : Conn) (n : Counters) where
  -- The handshake succeeds, and then the request is read.
  pub record Asked (req : Request) (c : Conn) : Type 0 where
    pub agreed : Conn
    pub handshake_done : handshake auth c0 ≡ (ok tt, agreed)
    pub request_read : read_request net agreed ≡ (ok req, c)

  pub data Tally : Conn × Counters → Type 0 where
    handshake_error :
        {c : Conn} (e : Error)
        → handshake auth c0 ≡ (err e, c)
        → Tally (c, record n { handshake_errors_total = inc n.handshake_errors_total })
    request_error :
        {c : Conn} (agreed : Conn) (e : Error)
        → handshake auth c0 ≡ (ok tt, agreed)
        → read_request net agreed ≡ (err e, c)
        → Tally (c, record n { request_errors_total = inc n.request_errors_total })
    dial_error :
        {c d : Conn} (req : Request) (e : DialError)
        → Asked req c
        → req.cmd ≡ cmd_connect
        → remote.dial req.addr ≡ refused e
        → Tally (d, record n { dial_errors_total = inc n.dial_errors_total })
    unsupported_cmd :
        {c d : Conn} (req : Request)
        → Asked req c
        → req.cmd ≢ cmd_connect
        → Tally (d, record n { unsupported_cmd_total = inc n.unsupported_cmd_total })
    relayed :
        {c : Conn} (req : Request) (d : Conn)
        → Asked req c
        → req.cmd ≡ cmd_connect
        → ((e : DialError) → remote.dial req.addr ≢ refused e)
        → Tally (
          remote.relay req.addr d,
          record n {
            connect_success_total = inc n.connect_success_total;
            relay_closed_total = inc n.relay_closed_total;
          },
        )
    reply_failed :
        {c d : Conn} (req : Request)
        → Asked req c
        → req.cmd ≡ cmd_connect
        → ((e : DialError) → remote.dial req.addr ≢ refused e)
        → d.writes_left ≡ 0
        → Tally (d, n)

-- An error means that the client takes no more bytes.
NoneLeft : Result (Unit {0}) × Conn → Type 0
NoneLeft r = (e : Error) (c : Conn) → r ≡ (err e, c) → c.writes_left ≡ 0

write-NoneLeft : (bs : Bytes) (c : Conn) → NoneLeft (write bs c)
unfolding NoneLeft write
write-NoneLeft bs c e c' h = ground arith

module _ (net : Net) where
  send_reply-NoneLeft :
      (rep : Byte) (a : Addr) (bs : Bytes) (c : Conn)
      → write_to net a ≡ some bs
      → NoneLeft (send_reply net rep (some a) c)
  unfolding NoneLeft send_reply write
  send_reply-NoneLeft rep a bs c w e c' h = ground (arith, w)

  zero_addr-write_to : (bs : Bytes) × (write_to net zero_addr ≡ some bs)
  unfolding write_to
  zero_addr-write_to = (_, refl)

  from_to4-write_to :
      (v4 ip : Bytes) (port : ℕ) → (bs : Bytes) × (write_to net (from_to4 net v4 ip port) ≡ some bs)
  unfolding from_to4 write_to
  from_to4-write_to [] ip port = (_, refl)
  from_to4-write_to (b ∷ bs) ip port = (_, refl)

module _ (net : Net) (remote : Remote) (auth : Option AuthConfig) (c0 : Conn) (n : Counters) where
  module _ (req : Request) (c : Conn) (asked : Asked net remote auth c0 n req c)
      (connects : req.cmd ≡ cmd_connect) where
    relay_replied-Tally :
        ((e : DialError) → remote.dial req.addr ≢ refused e)
        → (r : Result (Unit {0}) × Conn) → NoneLeft r
        → Tally net remote auth c0 n (relay_replied net remote req.addr r n)
    unfolding relay_replied NoneLeft
    relay_replied-Tally dialled (ok u, d) out = relayed req d asked connects dialled
    relay_replied-Tally dialled (err e, d) out =
        reply_failed req asked connects dialled (out e d refl)

    answer_dialed-Tally :
        (d : Dialed)
        → remote.dial req.addr ≡ d
        → Tally net remote auth c0 n (answer_dialed net remote req.addr d c n)
    unfolding answer_dialed addr_from_tcp
    answer_dialed-Tally (connected_tcp ip port) q =
        let (bs, w) = from_to4-write_to net (net.to4 ip) ip port in
        relay_replied-Tally (λ e h. cc) _ (send_reply-NoneLeft net rep_success _ bs c w)
    answer_dialed-Tally connected_other q =
        let (bs, w) = zero_addr-write_to net in
        relay_replied-Tally (λ e h. cc) _ (send_reply-NoneLeft net rep_success zero_addr bs c w)
    answer_dialed-Tally (refused e) q = dial_error req e asked connects q

  serve_request-Tally :
      (agreed : Conn) (r : Result Request × Conn)
      → handshake auth c0 ≡ (ok tt, agreed)
      → read_request net agreed ≡ r
      → Tally net remote auth c0 n (serve_request net remote r n)
  unfolding serve_request handle_connect
  serve_request-Tally agreed (err e, c) h q = request_error agreed e h q
  serve_request-Tally agreed (ok req, c) h q =
      let asked : Asked net remote auth c0 n req c = record {
        agreed = agreed;
        handshake_done = h;
        request_read = q;
      } in
      elim (Bool-cases (req.cmd == cmd_connect)) [
        | inl e ↦
            rw (e, serve_request)
              (answer_dialed-Tally req c asked (ground (arith, e)) (remote.dial req.addr) refl)
        | inr e ↦ rw (e, serve_request) (unsupported_cmd req asked (ground (arith, e)))
      ]

  serve_negotiated-Tally :
      (r : Result (Unit {0}) × Conn)
      → handshake auth c0 ≡ r
      → Tally net remote auth c0 n (serve_negotiated net remote r n)
  unfolding serve_negotiated
  serve_negotiated-Tally (err e, c) h = handshake_error e h
  serve_negotiated-Tally (ok u, c) h = serve_request-Tally c (read_request net c) h refl

  -- Whatever a client sends and the dialer answers, a connection is counted once, by its outcome: a
  -- handshake that fails, a request that cannot be read, another command than CONNECT, a dial that
  -- fails, or a relay that was opened and closed. It is counted nowhere only where the dial of a
  -- CONNECT succeeded and the reply met a client that takes no more bytes.
  pub handle_conn-Tally : Tally net remote auth c0 n (handle_conn net remote auth c0 n)
  unfolding handle_conn
  handle_conn-Tally = serve_negotiated-Tally (handshake auth c0) refl
