-- ===== src/Socks/Server/Delays.antt =====
-- The pauses of the accept loop of internal/socks5/server.go.
use session_proxy.Prelude.{ℕ, ◌*◌, ◌^◌, ◌≡◌, refl, arith, min, zero, suc}
use session_proxy.Socks.Server.{millisecond, next_temp_delay}

-- The pause after k temporary errors in a row.
unfoldable pub delay_after : ℕ → ℕ
unfolding next_temp_delay
delay_after zero = 0
delay_after (suc k) = next_temp_delay (delay_after k)

-- Temporary errors in a row pause for 5 ms, and each for twice as long as the one before, up to a
-- second.
pub delay_after-doubles :
    (k : ℕ) → delay_after (suc k) ≡ min (1000 * millisecond) (5 * millisecond * 2 ^ k)
unfolding delay_after next_temp_delay
delay_after-doubles zero = refl
delay_after-doubles (suc k) = ground (arith, delay_after-doubles k)
