-- ===== src/Tests/Serving.antt =====
-- A server with one token, and clients that say nothing.
use session_proxy.Prelude.{◌≡◌, refl, true, false, [], ◌∷◌, none, min, ◌*◌, ◌^◌, arith}
use session_proxy.Socks.Conn.{Conn}
use session_proxy.Socks.Addr.{Net}
use session_proxy.Socks.Server.{
  Server, Remote, connected_other, accept_conn, handle_conn, millisecond, count_accepted,
  take_token, count_reject, add_active, return_token,
}
use session_proxy.Socks.Server.Outcome.{Tally, handle_conn-Tally}
use session_proxy.Socks.Server.Delays.{delay_after, delay_after-doubles}
use session_proxy.Socks.Server.Limit.{
  System, waiting, no_counters, start, Reachable, started, stepped, accepts, takes, serves, rejects,
  ends, handshake_failed, count_ending, returns, Accounted, Reachable-Accounted,
}

abbrev net : Net
net = record { to4 = λ ip. ip; to16 = λ ip. ip }

abbrev remote : Remote
remote = record { dial = λ a. connected_other; relay = λ a c. c }

-- No authentication, and CONNECT to 1.2.3.4 at port 80.
abbrev greeter : Conn
greeter = record {
  input = 5 ∷ 1 ∷ 0 ∷ 5 ∷ 1 ∷ 0 ∷ 1 ∷ 1 ∷ 2 ∷ 3 ∷ 4 ∷ 0 ∷ 80 ∷ [];
  output = [];
  writes_left = 9;
}

handle_conn-Tally_example :
    Tally net remote none greeter no_counters (handle_conn net remote none greeter no_counters)
handle_conn-Tally_example = handle_conn-Tally net remote none greeter no_counters

abbrev busy : Server
busy = record {
  max_conns = 1;
  tokens = 1;
  active = 1;
  temp_delay = 0;
  counters = record no_counters { accepted_total = 1 };
}

abbrev full : Server
full = record busy {
  counters = record no_counters { accepted_total = 2; conn_limit_rejects_total = 1 };
}

first_accepted : accept_conn (start 1).server ≡ (true, busy)
unfolding accept_conn
first_accepted = refl

second_rejected : accept_conn busy ≡ (false, full)
unfolding accept_conn
second_rejected = refl

-- The client is served, a second one is rejected, and the first one's handler ends.
abbrev ended : System
ended = record {
  server = record {
    max_conns = 1;
    tokens = 0;
    active = 1;
    temp_delay = 0;
    counters = record no_counters {
      accepted_total = 2;
      conn_limit_rejects_total = 1;
      handshake_errors_total = 1;
    };
  };
  accepting = waiting;
  serving = 0;
  relaying = 0;
  leaving = 0;
  released = 1;
  done = 0;
}

ended-Reachable : Reachable 1 ended
unfolding count_accepted take_token count_reject add_active return_token count_ending
ended-Reachable =
    stepped
      (stepped
        (stepped
          (stepped
            (stepped (stepped (stepped started (accepts refl)) (takes _ refl refl)) (serves refl))
            (accepts refl))
          (rejects _ refl refl))
        (ends handshake_failed (omega arith)))
      (returns (omega arith))

Reachable-Accounted_example : Accounted 1 ended
Reachable-Accounted_example = Reachable-Accounted 1 ended ended-Reachable

third_delay : delay_after 3 ≡ min (1000 * millisecond) (5 * millisecond * 2 ^ 2)
third_delay = delay_after-doubles 2
