-- ===== src/Pool/Growth.antt =====
-- How the pool of internal/upstream/pool.go grows: startScale and its goroutines, the replenishing
-- of maintainOnce, and what takes connections away.
pub mod Bound
use session_proxy.Prelude.{
  ℕ, zero, suc, ◌+◌, ◌-◌, ◌*◌, ◌%◌, ◌^◌, ◌<◌, Bool, true, false, ◌&&◌, not, ltb, leb, ◌==◌, Option,
  none, some, if◌then◌else◌,
}
use session_proxy.Pool.{second, default_pool_size, max_pool_size, max_channels_per_conn}

abbrev pub scale_parallelism : ℕ
scale_parallelism = 2

abbrev pub replenish_parallelism : ℕ
replenish_parallelism = 2

abbrev pub proactive_scale_headroom : ℕ
proactive_scale_headroom = 2

-- The counts of a Group. The rest says where its goroutines stand: those of startScale that connect
-- (`scaling`) or have come to their deferred call (`scale_ending`); the calls of replenishOnce that
-- connect (`replenishing`), have added their connection (`joined`), or have recorded their outcome
-- (`recorded`); what maintainOnce counted, where it is in front of reserveReplenish; and the size
-- of the pool that startScale read, where it goes on under scaleMu.
pub record Group : Type 0 where
  pub pool_size : ℕ
  pub scale_in_flight : ℕ
  pub scale_starts_total : ℕ
  pub replenish_in_flight : ℕ
  pub replenish_failures : ℕ
  pub replenish_next_attempt : ℕ
  pub scaling : ℕ
  pub scale_ending : ℕ
  pub replenishing : ℕ
  pub joined : ℕ
  pub recorded : ℕ
  pub counted : Option ℕ
  pub looked : Option ℕ

-- How many connections startScale adds.
scale_step : ℕ → ℕ → ℕ
scale_step remaining_pool remaining_parallel =
    let add = if ltb remaining_pool 1 then remaining_pool else 1 in
    if ltb remaining_parallel add then remaining_parallel else add

-- startScale behind its look at the size of the pool, and whether it started any attempts.
unfoldable pub scale_from : ℕ → Group → Bool × Group
unfolding scale_step
scale_from pool_size g =
    let total = pool_size + g.scale_in_flight in
    if leb max_pool_size total
    then (false, g)
    else if leb scale_parallelism g.scale_in_flight
    then (false, g)
    else (let add = scale_step (max_pool_size - total) (scale_parallelism - g.scale_in_flight) in
        if add == 0 then (false, g) else (
          true,
          record g {
            scale_in_flight = g.scale_in_flight + add;
            scale_starts_total = (g.scale_starts_total + add) % 2 ^ 64;
            scaling = g.scaling + add;
          },
        ))

-- startScale, where nothing appends a connection behind its look.
unfoldable pub start_scale : Group → Bool × Group
unfolding scale_from
start_scale g = scale_from g.pool_size g

-- The two sections of startScale, where others append; it holds scaleMu throughout.
unfoldable pub look_scale : Group → Group
look_scale g = record g { looked = some g.pool_size }

unfoldable pub scale_looked : ℕ → Group → Group
unfolding scale_from
scale_looked pool_size g = record (scale_from pool_size g).1 { looked = none }

-- startScaleIfNeeded, where `available` says that a connection has capacity.
unfoldable pub start_scale_if_needed : Bool → Group → Bool × Group
unfolding start_scale
start_scale_if_needed available g = if available then (false, g) else start_scale g

-- maybeScaleForHeadroom, where `used` is the load of all connections: it returns where more than
-- the headroom is free.
unfoldable pub maybe_scale_for_headroom : ℕ → Group → Group
unfolding start_scale
maybe_scale_for_headroom used g =
    if ltb (proactive_scale_headroom + used) (g.pool_size * max_channels_per_conn)
    then g
    else (start_scale g).1

-- A goroutine of startScale appends its connection, or fails to connect; and its deferred call.
unfoldable pub append_scaled : Group → Group
append_scaled g = record g {
  pool_size = g.pool_size + 1;
  scaling = g.scaling - 1;
  scale_ending = g.scale_ending + 1;
}

unfoldable pub scale_failed : Group → Group
scale_failed g = record g { scaling = g.scaling - 1; scale_ending = g.scale_ending + 1 }

unfoldable pub finish_scale : Group → Group
finish_scale g = record g {
  scale_in_flight = g.scale_in_flight - 1;
  scale_ending = g.scale_ending - 1;
}

-- reserveReplenish: how many attempts, how long to wait, and the state.
unfoldable pub reserve_replenish : ℕ → ℕ → Group → ℕ × ℕ × Group
reserve_replenish now current_count g =
    if not (g.replenish_next_attempt == 0) && ltb now g.replenish_next_attempt
    then (0, g.replenish_next_attempt - now, g)
    else (let needed = default_pool_size - current_count in
        let available = replenish_parallelism - g.replenish_in_flight in
        if needed == 0
        then (0, 0, g)
        else if available == 0
        then (0, 0, g)
        else (let reserved = if ltb available needed then available else needed in
            (reserved, 0, record g { replenish_in_flight = g.replenish_in_flight + reserved })))

-- The end of maintainOnce: what it counts under connsMu, and, later, the attempts that it starts.
unfoldable pub count_conns : Group → Group
count_conns g = record g {
  counted = if ltb g.pool_size default_pool_size then some g.pool_size else none;
}

unfoldable pub replenish_pool : ℕ → ℕ → Group → Group
unfolding reserve_replenish
replenish_pool now current_count g =
    let (needed, wait, reserved) = reserve_replenish now current_count g in
    if ltb 0 wait
    then record reserved { counted = none }
    else record reserved { replenishing = reserved.replenishing + needed; counted = none }

-- replenishOnce: its connection is appended, and the success is recorded; or the failure, with the
-- delay of its retryer; and then finishReplenish.
unfoldable pub append_replenished : Group → Group
append_replenished g = record g {
  pool_size = g.pool_size + 1;
  replenishing = g.replenishing - 1;
  joined = g.joined + 1;
}

unfoldable pub record_replenish_success : Group → Group
record_replenish_success g = record g {
  replenish_failures = 0;
  replenish_next_attempt = 0;
  joined = g.joined - 1;
  recorded = g.recorded + 1;
}

unfoldable pub record_replenish_failure : ℕ → ℕ → Group → Group
record_replenish_failure now delay g = record g {
  replenish_failures = g.replenish_failures + 1;
  replenish_next_attempt = now + delay;
  replenishing = g.replenishing - 1;
  recorded = g.recorded + 1;
}

unfoldable pub finish_replenish : Group → Group
finish_replenish g = record g {
  replenish_in_flight = g.replenish_in_flight - 1;
  recorded = g.recorded - 1;
}

-- resetReplenishBackoff, after the system slept.
unfoldable pub reset_replenish_backoff : Group → Group
reset_replenish_backoff g = record g {
  replenish_failures = 0;
  replenish_next_attempt = 0;
  replenish_in_flight = 0;
}

-- A connection less, by removeConn or as maintainOnce finds it dead.
unfoldable pub remove_conn : Group → Group
remove_conn g = record g { pool_size = g.pool_size - 1 }
