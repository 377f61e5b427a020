-- ===== src/Pool/Channels.antt =====
-- The channels of one SSH connection of internal/upstream/pool.go: the reservation and the result
-- of dial, releaseInflight, and trackedConn.Close, as the events of goroutines that run at once.
use session_proxy.Prelude.{
  ℕ, zero, suc, ◌+◌, ◌-◌, ◌<◌, ◌≤◌, ◌≡◌, refl, subst, Option, none, some, arith, ltb, if◌then◌else◌,
}
use session_proxy.Pool.{max_channels_per_conn}

-- activeChannels and inflightDials, and the dials whose slot is released by releaseInflight and
-- whose channel is not yet counted in activeChannels.
pub record Load : Type 0 where
  pub active : ℕ
  pub inflight : ℕ
  pub landing : ℕ

-- The reservation of dial: what it added is taken back where it passes the limit. The addition, the
-- look and the taking back are one step here: another dial may see the addition meanwhile and be
-- refused for it.
unfoldable pub reserve_channel : Load → Option Load
reserve_channel l =
    if ltb max_channels_per_conn (l.active + (l.inflight + 1))
    then none
    else some (record l { inflight = l.inflight + 1 })

-- releaseInflight of a dial that failed or was abandoned.
unfoldable pub release_inflight : Load → Load
release_inflight l = record l { inflight = l.inflight - 1 }

-- releaseInflight of a dial that succeeded, and then the count of its channel.
unfoldable pub begin_landing : Load → Load
unfolding release_inflight
begin_landing l = record (release_inflight l) { landing = l.landing + 1 }

unfoldable pub finish_landing : Load → Load
finish_landing l = record l { active = l.active + 1; landing = l.landing - 1 }

-- trackedConn.Close, the first time.
unfoldable pub close_channel : Load → Load
close_channel l = record l { active = l.active - 1 }

abbrev pub no_load : Load
no_load = record { active = 0; inflight = 0; landing = 0 }

-- The events, where a reservation is only made in states of P.
pub data Step (P : Load → Type 0) (l : Load) : Load → Type 0 where
  reserved : (m : Load) → P l → reserve_channel l ≡ some m → Step P l m
  failed : 0 < l.inflight → Step P l (release_inflight l)
  succeeded : 0 < l.inflight → Step P l (begin_landing l)
  landed : 0 < l.landing → Step P l (finish_landing l)
  closed : 0 < l.active → Step P l (close_channel l)

pub data Reachable (P : Load → Type 0) : Load → Type 0 where
  started : Reachable P no_load
  stepped : {l m : Load} → Reachable P l → Step P l m → Reachable P m

Reachable-limit :
    (l : Load)
    → Reachable (λ m. m.landing ≡ 0) l
    → l.active + l.inflight + l.landing ≤ max_channels_per_conn
unfolding reserve_channel release_inflight begin_landing finish_landing close_channel
Reachable-limit _ started = omega arith
Reachable-limit _ (stepped {l} r (reserved m p e)) = ground (arith, Reachable-limit l r, p, e)
Reachable-limit _ (stepped {l} r (failed h)) = omega (arith, Reachable-limit l r, h)
Reachable-limit _ (stepped {l} r (succeeded h)) = omega (arith, Reachable-limit l r, h)
Reachable-limit _ (stepped {l} r (landed h)) = omega (arith, Reachable-limit l r, h)
Reachable-limit _ (stepped {l} r (closed h)) = omega (arith, Reachable-limit l r, h)

-- In any interleaving.
abbrev pub Anytime : Load → Type 0
Anytime l = Unit {0}

-- Dials that have all released their slots and count their channels one after the other.
abbrev pub landing_load : ℕ → ℕ → Load
landing_load active landing = record { active = active; inflight = 0; landing = landing }

all_landing : (n : ℕ) → Reachable Anytime (landing_load 0 n)
unfolding begin_landing release_inflight reserve_channel
all_landing zero = started
all_landing (suc n) =
    subst (λ k. Reachable Anytime (landing_load 0 k)) (omega arith)
      (stepped
        (stepped (all_landing n)
          (reserved (record { active = 0; inflight = 1; landing = n }) tt refl))
        (succeeded (omega arith)))

all_active :
    (n landing : ℕ)
    → Reachable Anytime (landing_load 0 (n + landing))
    → Reachable Anytime (landing_load n landing)
unfolding finish_landing
all_active zero landing r = subst (λ k. Reachable Anytime (landing_load 0 k)) (omega arith) r
all_active (suc n) landing r = subst (Reachable Anytime) (ground arith) (
    stepped
      (all_active n (landing + 1)
        (subst (λ k. Reachable Anytime (landing_load 0 k)) (omega arith) r))
      (landed (omega arith)))

Reachable-active : (n : ℕ) → (l : Load) × Reachable Anytime l × (l.active ≡ n)
Reachable-active n = (landing_load n 0, all_active n 0 (all_landing (n + 0)), refl)

-- Where no reservation is made while another dial is between the release of its slot and the count
-- of its channel, a connection never has more channels and dials than its limit. In all
-- interleavings the limit is none: dial releases its slot before it counts its channel, and with
-- enough dials in between a connection gets any number of channels.
pub Reachable-channels :
    (l : Load) (n : ℕ)
    → Reachable (λ m. m.landing ≡ 0) l
    → (l.active + l.inflight + l.landing ≤ max_channels_per_conn)
      × ((k : Load) × Reachable Anytime k × (k.active ≡ n))
Reachable-channels l n r = (Reachable-limit l r, Reachable-active n)
