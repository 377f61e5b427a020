-- ===== src/Pool/Keepalive.antt =====
-- The keepalive loop of one SSH connection in internal/upstream/pool.go.
use session_proxy.Prelude.{
  ℕ, ◌+◌, ◌-◌, ◌*◌, ◌<◌, ◌≤◌, ◌≡◌, ◌↔◌, refl, ◌∙◌, Bool, true, false, ◌&&◌, ◌||◌, not, List, [],
  ◌∷◌, arith, leb, ◌==◌, if◌then◌else◌,
}
use session_proxy.Pool.{second}

abbrev pub ssh_keepalive_failure_limit : ℕ
ssh_keepalive_failure_limit = 2

abbrev pub keepalive_rescue_cooldown : ℕ
keepalive_rescue_cooldown = 600 * second

-- keepaliveConsecutiveFailures, lastKeepaliveRescueUnixNano, how often a resume was forced, and
-- whether the connection was closed, which ends the loop.
pub record Keepalive : Type 0 where
  pub failures : ℕ
  pub last_rescue : ℕ
  pub forced_resumes : ℕ
  pub closed : Bool

-- What a tick of the loop finds: the time, whether the adapter reconnects before and after the
-- probe, whether the probe failed, and whether there was inbound traffic of late.
pub record Probe : Type 0 where
  pub now : ℕ
  pub reconnecting_before : Bool
  pub failed : Bool
  pub reconnecting_after : Bool
  pub recent_inbound : Bool

unfoldable pub may_rescue : Bool → Probe → Keepalive → Bool
may_rescue has_adapter p k =
    has_adapter && (k.last_rescue == 0 || leb keepalive_rescue_cooldown (p.now - k.last_rescue))

-- The loop behind a failed probe that counts.
count_failure : Bool → Probe → Keepalive → Keepalive
unfolding may_rescue
count_failure has_adapter p k =
    if leb ssh_keepalive_failure_limit (k.failures + 1)
    then (if may_rescue has_adapter p k
        then record k { failures = 0; last_rescue = p.now; forced_resumes = k.forced_resumes + 1 }
        else record k { failures = k.failures + 1; closed = true })
    else record k { failures = k.failures + 1 }

-- One tick, of an open connection.
keepalive_probe : Bool → Probe → Keepalive → Keepalive
unfolding count_failure
keepalive_probe has_adapter p k =
    if p.reconnecting_before && has_adapter
    then k
    else if not p.failed
    then record k { failures = 0 }
    else if p.reconnecting_after && has_adapter
    then k
    else if p.recent_inbound && has_adapter
    then record k { failures = 0 }
    else count_failure has_adapter p k

unfoldable pub keepalive_tick : Bool → Probe → Keepalive → Keepalive
unfolding keepalive_probe
keepalive_tick has_adapter p k = if k.closed then k else keepalive_probe has_adapter p k

unfoldable pub keepalive_loop : Bool → List Probe → Keepalive → Keepalive
keepalive_loop has_adapter [] k = k
keepalive_loop has_adapter (p ∷ ps) k =
    keepalive_loop has_adapter ps (keepalive_tick has_adapter p k)

-- A probe that failed, with the adapter connected and no inbound traffic.
pub record IsDead (p : Probe) : Type 0 where
  pub before : p.reconnecting_before ≡ false
  pub failing : p.failed ≡ true
  pub after : p.reconnecting_after ≡ false
  pub silent : p.recent_inbound ≡ false

-- A tick closes an open connection exactly where the probe found it dead, one failure or more were
-- counted before, and no resume may be tried: there is no adapter, or the last rescue is within
-- the cooldown.
keepalive_tick-closed :
    (p : Probe) (k : Keepalive)
    → k.closed ≡ false
    → ((keepalive_tick true p k).closed ≡ true)
      ↔ (IsDead p × (1 ≤ k.failures) × (may_rescue true p k ≡ false))
unfolding keepalive_tick keepalive_probe count_failure
keepalive_tick-closed p k o = (
  λ c. (
    record {
      before = ground (arith, c, o);
      failing = ground (arith, c, o);
      after = ground (arith, c, o);
      silent = ground (arith, c, o);
    },
    ground (arith, c, o),
    ground (arith, c, o),
  ),
  λ (d, f, m). ground (arith, d.before, d.failing, d.after, d.silent, f, m, o),
)

abbrev pub healthy : Keepalive
healthy = record { failures = 0; last_rescue = 0; forced_resumes = 0; closed = false }

-- The states of a connection whose probes all find it dead.
abbrev pub counted : ℕ → ℕ → ℕ → Keepalive
counted failures last_rescue forced = record {
  failures = failures;
  last_rescue = last_rescue;
  forced_resumes = forced;
  closed = false;
}

dead_tick :
    (p : Probe) (k : Keepalive)
    → IsDead p
    → k.closed ≡ false
    → keepalive_tick true p k ≡ count_failure true p k
unfolding keepalive_tick keepalive_probe
dead_tick p k d o = rw (o, d.before, d.failing, d.after, d.silent, keepalive_tick) refl

first_failure :
    (p : Probe) (last forced : ℕ)
    → IsDead p
    → keepalive_tick true p (counted 0 last forced) ≡ counted 1 last forced
unfolding count_failure
first_failure p last forced d = dead_tick p (counted 0 last forced) d refl

rescue : (p : Probe) → IsDead p → keepalive_tick true p (counted 1 0 0) ≡ counted 0 p.now 1
unfolding count_failure may_rescue
rescue p d = dead_tick p (counted 1 0 0) d refl

eviction :
    (p : Probe) (last : ℕ)
    → IsDead p
    → 0 < last
    → p.now < last + keepalive_rescue_cooldown
    → keepalive_tick true p (counted 1 last 1) ≡ record (counted 2 last 1) { closed = true }
unfolding count_failure may_rescue
eviction p last d h c = dead_tick p (counted 1 last 1) d refl ∙ ground (arith, h, c)

-- A connection that stays dead is rescued once and then closed: the second of four probes that
-- find it dead forces a resume, and the fourth closes it where it comes within the cooldown.
keepalive_loop_dead :
    (p q r s : Probe)
    → IsDead p
    → IsDead q
    → IsDead r
    → IsDead s
    → 0 < q.now
    → s.now < q.now + keepalive_rescue_cooldown
    → ((keepalive_loop true (p ∷ q ∷ r ∷ s ∷ []) healthy).closed ≡ true)
      × ((keepalive_loop true (p ∷ q ∷ r ∷ s ∷ []) healthy).forced_resumes ≡ 1)
      × ((keepalive_loop true (p ∷ q ∷ r ∷ []) healthy).closed ≡ false)
unfolding keepalive_loop
keepalive_loop_dead p q r s dp dq dr ds h c =
    rw (first_failure p 0 0 dp, rescue q dq, first_failure r q.now 1 dr, eviction s q.now ds h c)
      (refl, refl, refl)
