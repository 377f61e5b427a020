-- ===== src/Socks/Server/Limit.antt =====
-- The accept loop and the handlers of internal/socks5/server.go, interleaved: each send, receive and
-- atomic addition is a step.
use session_proxy.Prelude.{ℕ, ◌+◌, ◌-◌, ◌%◌, ◌^◌, ◌<◌, ◌≤◌, ◌≡◌, ◌≢◌, refl, true, false, arith}
use session_proxy.Prelude.Int64.{inc}
use session_proxy.Socks.Server.{
  Counters, Server, take_token, add_active, return_token, sub_active, accept_failed, count_accepted,
  count_reject,
}

-- Where the accept loop stands: at Accept, behind the count of the connection, or with a token for it.
pub data Accepting : Type 0 where
  waiting counted holding : Accepting

-- The server, its accept loop, and how many handlers there are: in front of their relay, in it, at the
-- receive of releaseConn, at its subtraction, and done.
pub record System : Type 0 where
  pub server : Server
  pub accepting : Accepting
  pub serving : ℕ
  pub relaying : ℕ
  pub leaving : ℕ
  pub released : ℕ
  pub done : ℕ

abbrev pub no_counters : Counters
no_counters = record {
  accepted_total = 0;
  conn_limit_rejects_total = 0;
  handshake_errors_total = 0;
  request_errors_total = 0;
  dial_errors_total = 0;
  connect_success_total = 0;
  relay_closed_total = 0;
  unsupported_cmd_total = 0;
}

-- New, and no connection yet.
abbrev pub start : ℕ → System
start max_conns = record {
  server = record {
    max_conns = max_conns;
    tokens = 0;
    active = 0;
    temp_delay = 0;
    counters = no_counters;
  };
  accepting = waiting;
  serving = 0;
  relaying = 0;
  leaving = 0;
  released = 0;
  done = 0;
}

-- How a handler comes to its end without a relay, and what it counts.
pub data Ending : Type 0 where
  handshake_failed request_failed dial_failed other_command reply_failed : Ending

unfoldable pub count_ending : Ending → Counters → Counters
count_ending handshake_failed n = record n { handshake_errors_total = inc n.handshake_errors_total }
count_ending request_failed n = record n { request_errors_total = inc n.request_errors_total }
count_ending dial_failed n = record n { dial_errors_total = inc n.dial_errors_total }
count_ending other_command n = record n { unsupported_cmd_total = inc n.unsupported_cmd_total }
count_ending reply_failed n = n

unfoldable pub count_success : Counters → Counters
count_success n = record n { connect_success_total = inc n.connect_success_total }

unfoldable pub count_closed : Counters → Counters
count_closed n = record n { relay_closed_total = inc n.relay_closed_total }

pub data Step (s : System) : System → Type 0 where
  fails_accept : s.accepting ≡ waiting → Step s (record s { server = accept_failed s.server })
  accepts :
      s.accepting ≡ waiting
      → Step s (record s { server = count_accepted s.server; accepting = counted })
  takes :
      (t : Server)
      → s.accepting ≡ counted
      → take_token s.server ≡ (true, t)
      → Step s (record s { server = t; accepting = holding })
  rejects :
      (t : Server)
      → s.accepting ≡ counted
      → take_token s.server ≡ (false, t)
      → Step s (record s { server = count_reject t; accepting = waiting })
  serves :
      s.accepting ≡ holding
      → Step s
          (record s { server = add_active s.server; accepting = waiting; serving = s.serving + 1 })
  ends :
      (e : Ending)
      → 0 < s.serving
      → Step s (record s {
        server = record s.server { counters = count_ending e s.server.counters };
        serving = s.serving - 1;
        leaving = s.leaving + 1;
      })
  opens :
      0 < s.serving
      → Step s (record s {
        server = record s.server { counters = count_success s.server.counters };
        serving = s.serving - 1;
        relaying = s.relaying + 1;
      })
  closes :
      0 < s.relaying
      → Step s (record s {
        server = record s.server { counters = count_closed s.server.counters };
        relaying = s.relaying - 1;
        leaving = s.leaving + 1;
      })
  returns :
      0 < s.leaving
      → Step s (record s {
        server = return_token s.server;
        leaving = s.leaving - 1;
        released = s.released + 1;
      })
  subtracts :
      0 < s.released
      → Step s
          (record s { server = sub_active s.server; released = s.released - 1; done = s.done + 1 })

pub data Reachable (max_conns : ℕ) : System → Type 0 where
  started : Reachable max_conns (start max_conns)
  stepped : {s t : System} → Reachable max_conns s → Step s t → Reachable max_conns t

-- The connections that the accept loop has counted, or holds a token for.
unfoldable pub on_hand : Accepting → ℕ
on_hand waiting = 0
on_hand counted = 1
on_hand holding = 1

unfoldable pub at_hand : Accepting → ℕ
at_hand waiting = 0
at_hand counted = 0
at_hand holding = 1

-- What holds between the steps.
pub record Accounted (max_conns : ℕ) (s : System) : Type 0 where
  pub limit : s.server.max_conns ≡ max_conns
  pub tokens :
      max_conns ≢ 0 → s.server.tokens ≡ at_hand s.accepting + s.serving + s.relaying + s.leaving
  pub within : max_conns ≢ 0 → s.server.tokens ≤ max_conns
  pub active : s.server.active ≡ (s.serving + s.relaying + s.leaving + s.released) % 2 ^ 64
  pub accepted :
      s.server.counters.accepted_total
      ≡ (s.server.counters.conn_limit_rejects_total
          + on_hand s.accepting
          + s.serving
          + s.relaying
          + s.leaving
          + s.released
          + s.done)
        % 2 ^ 64
  pub relays :
      s.server.counters.connect_success_total
      ≡ (s.server.counters.relay_closed_total + s.relaying) % 2 ^ 64

Step-Accounted :
    (max_conns : ℕ) (s t : System) → Step s t → Accounted max_conns s → Accounted max_conns t
unfolding accept_failed count_accepted take_token count_reject add_active return_token sub_active
    count_ending count_success count_closed on_hand at_hand
Step-Accounted max_conns s _ (fails_accept p) v = record {
  limit = ground (arith, v.limit, p);
  tokens = λ h. ground (arith, v.limit, v.tokens h, v.within h, h, p);
  within = λ h. ground (arith, v.limit, v.tokens h, v.within h, h, p);
  active = ground (arith, v.active, p);
  accepted = ground (arith, v.accepted, p);
  relays = ground (arith, v.relays, p);
}
Step-Accounted max_conns s _ (accepts p) v = record {
  limit = ground (arith, v.limit, p);
  tokens = λ h. ground (arith, v.limit, v.tokens h, v.within h, h, p);
  within = λ h. ground (arith, v.limit, v.tokens h, v.within h, h, p);
  active = ground (arith, v.active, p);
  accepted = ground (arith, v.accepted, p);
  relays = ground (arith, v.relays, p);
}
Step-Accounted max_conns s _ (takes u p e) v = record {
  limit = ground (arith, v.limit, p, e);
  tokens = λ h. ground (arith, v.limit, v.tokens h, v.within h, h, p, e);
  within = λ h. ground (arith, v.limit, v.tokens h, v.within h, h, p, e);
  active = ground (arith, v.active, p, e);
  accepted = ground (arith, v.accepted, p, e);
  relays = ground (arith, v.relays, p, e);
}
Step-Accounted max_conns s _ (rejects u p e) v = record {
  limit = ground (arith, v.limit, p, e);
  tokens = λ h. ground (arith, v.limit, v.tokens h, v.within h, h, p, e);
  within = λ h. ground (arith, v.limit, v.tokens h, v.within h, h, p, e);
  active = ground (arith, v.active, p, e);
  accepted = ground (arith, v.accepted, p, e);
  relays = ground (arith, v.relays, p, e);
}
Step-Accounted max_conns s _ (serves p) v = record {
  limit = ground (arith, v.limit, p);
  tokens = λ h. ground (arith, v.limit, v.tokens h, v.within h, h, p);
  within = λ h. ground (arith, v.limit, v.tokens h, v.within h, h, p);
  active = ground (arith, v.active, p);
  accepted = ground (arith, v.accepted, p);
  relays = ground (arith, v.relays, p);
}
Step-Accounted max_conns s _ (ends e p) v = record {
  limit = ground (arith, v.limit, p);
  tokens = λ h. ground (arith, v.limit, v.tokens h, v.within h, h, p);
  within = λ h. ground (arith, v.limit, v.tokens h, v.within h, h, p);
  active = ground (arith, v.active, p);
  accepted = ground (arith, v.accepted, p);
  relays = ground (arith, v.relays, p);
}
Step-Accounted max_conns s _ (opens p) v = record {
  limit = ground (arith, v.limit, p);
  tokens = λ h. ground (arith, v.limit, v.tokens h, v.within h, h, p);
  within = λ h. ground (arith, v.limit, v.tokens h, v.within h, h, p);
  active = ground (arith, v.active, p);
  accepted = ground (arith, v.accepted, p);
  relays = ground (arith, v.relays, p);
}
Step-Accounted max_conns s _ (closes p) v = record {
  limit = ground (arith, v.limit, p);
  tokens = λ h. ground (arith, v.limit, v.tokens h, v.within h, h, p);
  within = λ h. ground (arith, v.limit, v.tokens h, v.within h, h, p);
  active = ground (arith, v.active, p);
  accepted = ground (arith, v.accepted, p);
  relays = ground (arith, v.relays, p);
}
Step-Accounted max_conns s _ (returns p) v = record {
  limit = ground (arith, v.limit, p);
  tokens = λ h. ground (arith, v.limit, v.tokens h, v.within h, h, p);
  within = λ h. ground (arith, v.limit, v.tokens h, v.within h, h, p);
  active = ground (arith, v.active, p);
  accepted = ground (arith, v.accepted, p);
  relays = ground (arith, v.relays, p);
}
Step-Accounted max_conns s _ (subtracts p) v = record {
  limit = ground (arith, v.limit, p);
  tokens = λ h. ground (arith, v.limit, v.tokens h, v.within h, h, p);
  within = λ h. ground (arith, v.limit, v.tokens h, v.within h, h, p);
  active = ground (arith, v.active, p);
  accepted = ground (arith, v.accepted, p);
  relays = ground (arith, v.relays, p);
}

start-Accounted : (max_conns : ℕ) → Accounted max_conns (start max_conns)
unfolding on_hand at_hand
start-Accounted max_conns = record {
  limit = refl;
  tokens = λ h. refl;
  within = λ h. omega arith;
  active = refl;
  accepted = refl;
  relays = refl;
}

-- However the steps of the accept loop and of the handlers interleave: a server with a limit holds a
-- token for each handler, up to the receive of its releaseConn, and for a connection whose handler is
-- about to start, and these are no more than the limit; activeConn counts the handlers up to their
-- subtraction; every counted connection was rejected, is at hand in the accept loop, is with its
-- handler, or is done; and the relays that were opened are those that were closed and those that run.
-- The counts wrap at 2^64.
pub Reachable-Accounted :
    (max_conns : ℕ) (s : System) → Reachable max_conns s → Accounted max_conns s
Reachable-Accounted max_conns _ started = start-Accounted max_conns
Reachable-Accounted max_conns _ (stepped {s} {t} r step) =
    Step-Accounted max_conns s t step (Reachable-Accounted max_conns s r)
