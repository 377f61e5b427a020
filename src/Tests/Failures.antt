-- ===== src/Tests/Failures.antt =====
-- Errors of dials: a target that refuses, and a transport that is gone.
use session_proxy.Prelude.{◌≡◌, refl, true, false}
use session_proxy.Prelude.Bytes.{Bytes, codes}
use session_proxy.Pool.Eviction.{DialFailure, starts_with, has_substring, is_transport_error}

abbrev by_message : Bytes → DialFailure
by_message text = record {
  is_eof = false;
  is_unexpected_eof = false;
  is_net_closed = false;
  is_closed_pipe = false;
  is_epipe = false;
  is_econnreset = false;
  message = text;
}

refusal-kept :
    is_transport_error (by_message (codes "ssh: rejected: connect failed (Connection refused)"))
    ≡ false
unfolding is_transport_error has_substring starts_with
refusal-kept = refl

disconnect-evicts : is_transport_error (by_message (codes "ssh: disconnect, reason 2: bye")) ≡ true
unfolding is_transport_error has_substring starts_with
disconnect-evicts = refl
