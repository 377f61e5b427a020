-- ===== src/Pool/Growth/Bound.antt =====
-- Bounds on the pool of internal/upstream/pool.go.
use session_proxy.Prelude.{
  ℕ, zero, suc, ◌+◌, ◌*◌, ◌<◌, ◌≤◌, ◌≡◌, ◌⊎◌, refl, Option, none, some, arith, subst,
}
use session_proxy.Pool.{default_pool_size, max_pool_size}
use session_proxy.Pool.Growth.{
  Group, replenish_parallelism, scale_parallelism, scale_from, look_scale, scale_looked,
  append_scaled, scale_failed, finish_scale, count_conns, replenish_pool, append_replenished,
  reset_replenish_backoff, remove_conn, finish_replenish, reserve_replenish, scale_step,
  record_replenish_success, record_replenish_failure,
}

-- What goes on in a group, each under its mutex: `counts` and `reserves` are the one goroutine that
-- maintains it, which also finds that the system has slept. `Sleeps` is empty where it stays awake.
pub data Step (Sleeps : Type 0) (g : Group) : Group → Type 0 where
  looks : g.looked ≡ none → Step Sleeps g (look_scale g)
  scales : (size : ℕ) → g.looked ≡ some size → Step Sleeps g (scale_looked size g)
  scale_appends : 0 < g.scaling → Step Sleeps g (append_scaled g)
  scale_fails : 0 < g.scaling → Step Sleeps g (scale_failed g)
  scale_ends : 0 < g.scale_ending → g.looked ≡ none → Step Sleeps g (finish_scale g)
  counts : g.counted ≡ none → Step Sleeps g (count_conns g)
  reserves : (now count : ℕ) → g.counted ≡ some count → Step Sleeps g (replenish_pool now count g)
  appends : 0 < g.replenishing → Step Sleeps g (append_replenished g)
  succeeds : 0 < g.joined → Step Sleeps g (record_replenish_success g)
  fails :
      (now delay : ℕ) → 0 < g.replenishing → Step Sleeps g (record_replenish_failure now delay g)
  finishes : 0 < g.recorded → Step Sleeps g (finish_replenish g)
  removes : Step Sleeps g (remove_conn g)
  wakes : Sleeps → g.counted ≡ none → Step Sleeps g (reset_replenish_backoff g)

-- After connectPool, which makes at most default_pool_size connections.
abbrev pub connected : ℕ → Group
connected size = record {
  pool_size = size;
  scale_in_flight = 0;
  scale_starts_total = 0;
  replenish_in_flight = 0;
  replenish_failures = 0;
  replenish_next_attempt = 0;
  scaling = 0;
  scale_ending = 0;
  replenishing = 0;
  joined = 0;
  recorded = 0;
  counted = none;
  looked = none;
}

pub data Reachable (Sleeps : Type 0) : Group → Type 0 where
  started : (size : ℕ) → size ≤ default_pool_size → Reachable Sleeps (connected size)
  stepped : {g h : Group} → Reachable Sleeps g → Step Sleeps g h → Reachable Sleeps h

-- The slack of the pool: a stale count lets as many more attempts pass as may replenish at once.
pub slack : Option ℕ → ℕ
slack none = replenish_parallelism
slack (some count) = 0

-- What startScale has read is at most too low by what may replenish meanwhile, unless the pool was
-- small then.
abbrev pub Fresh : Group → Type 0
Fresh g =
    (size : ℕ)
    → g.looked ≡ some size
    → (g.pool_size + g.scaling + g.replenishing
        ≤ size + g.scale_in_flight + replenish_parallelism + slack g.counted)
      ⊎ (g.pool_size + g.scaling + g.replenishing ≤ 8 + slack g.counted)

-- What holds while the system is awake.
pub record Bounded (g : Group) : Type 0 where
  pub scale_counted : g.scale_in_flight ≡ g.scaling + g.scale_ending
  pub few_scale : g.scale_in_flight ≤ scale_parallelism
  pub replenish_counted : g.replenish_in_flight ≡ g.replenishing + g.joined + g.recorded
  pub few_replenish : g.replenish_in_flight ≤ replenish_parallelism
  pub total :
      g.pool_size + g.scaling + g.replenishing
      ≤ max_pool_size + replenish_parallelism + slack g.counted
  pub fresh : Fresh g

module _ (g : Group) (b : Bounded g) where
  look_scale-Bounded : Bounded (look_scale g)
  unfolding look_scale
  look_scale-Bounded = record {
    scale_counted = b.scale_counted;
    few_scale = b.few_scale;
    replenish_counted = b.replenish_counted;
    few_replenish = b.few_replenish;
    total = b.total;
    fresh = λ size l. ground (arith, l, b.scale_counted, b.replenish_counted, b.few_replenish);
  }

  scale_looked-Bounded : (size : ℕ) → g.looked ≡ some size → Bounded (scale_looked size g)
  unfolding scale_looked scale_from scale_step
  scale_looked-Bounded size l = record {
    scale_counted = ground (arith, b.scale_counted);
    few_scale = ground (arith, b.few_scale);
    replenish_counted = ground (arith, b.replenish_counted);
    few_replenish = ground (arith, b.few_replenish);
    total = ground (arith, b.total, b.fresh size l);
    fresh = λ k e. ground (arith, e);
  }

  append_scaled-Bounded : 0 < g.scaling → Bounded (append_scaled g)
  unfolding append_scaled
  append_scaled-Bounded h = record {
    scale_counted = omega (arith, b.scale_counted, h);
    few_scale = b.few_scale;
    replenish_counted = b.replenish_counted;
    few_replenish = b.few_replenish;
    total = omega (arith, b.total, h);
    fresh = λ size l. ground (arith, b.fresh size l, h);
  }

  scale_failed-Bounded : 0 < g.scaling → Bounded (scale_failed g)
  unfolding scale_failed
  scale_failed-Bounded h = record {
    scale_counted = omega (arith, b.scale_counted, h);
    few_scale = b.few_scale;
    replenish_counted = b.replenish_counted;
    few_replenish = b.few_replenish;
    total = omega (arith, b.total);
    fresh = λ size l. ground (arith, b.fresh size l);
  }

  finish_scale-Bounded : 0 < g.scale_ending → g.looked ≡ none → Bounded (finish_scale g)
  unfolding finish_scale
  finish_scale-Bounded h e = record {
    scale_counted = omega (arith, b.scale_counted, h);
    few_scale = omega (arith, b.few_scale);
    replenish_counted = b.replenish_counted;
    few_replenish = b.few_replenish;
    total = b.total;
    fresh = λ size l. ground (arith, l, e);
  }

  count_conns-Bounded : Bounded (count_conns g)
  unfolding count_conns slack
  count_conns-Bounded = record {
    scale_counted = b.scale_counted;
    few_scale = b.few_scale;
    replenish_counted = b.replenish_counted;
    few_replenish = b.few_replenish;
    total =
        ground (arith, b.total, b.scale_counted, b.few_scale, b.replenish_counted, b.few_replenish);
    fresh = λ size l.
        ground (
          arith,
          b.fresh size l,
          b.scale_counted,
          b.few_scale,
          b.replenish_counted,
          b.few_replenish,
        );
  }

  replenish_pool-Bounded :
      (now count : ℕ) → g.counted ≡ some count → Bounded (replenish_pool now count g)
  unfolding replenish_pool reserve_replenish slack
  replenish_pool-Bounded now count c = record {
    scale_counted = ground (arith, b.scale_counted);
    few_scale = ground (arith, b.few_scale);
    replenish_counted = ground (arith, b.replenish_counted);
    few_replenish = ground (arith, b.few_replenish);
    total = ground (arith, b.total, c, b.few_replenish);
    fresh = λ size l. ground (arith, b.fresh size, l, c, b.few_replenish);
  }

  append_replenished-Bounded : 0 < g.replenishing → Bounded (append_replenished g)
  unfolding append_replenished
  append_replenished-Bounded h = record {
    scale_counted = b.scale_counted;
    few_scale = b.few_scale;
    replenish_counted = omega (arith, b.replenish_counted, h);
    few_replenish = b.few_replenish;
    total = omega (arith, b.total, h);
    fresh = λ size l. ground (arith, b.fresh size l, h);
  }

  record_replenish_success-Bounded : 0 < g.joined → Bounded (record_replenish_success g)
  unfolding record_replenish_success
  record_replenish_success-Bounded h = record {
    scale_counted = b.scale_counted;
    few_scale = b.few_scale;
    replenish_counted = omega (arith, b.replenish_counted, h);
    few_replenish = b.few_replenish;
    total = b.total;
    fresh = λ size l. b.fresh size l;
  }

  record_replenish_failure-Bounded :
      (now delay : ℕ) → 0 < g.replenishing → Bounded (record_replenish_failure now delay g)
  unfolding record_replenish_failure
  record_replenish_failure-Bounded now delay h = record {
    scale_counted = b.scale_counted;
    few_scale = b.few_scale;
    replenish_counted = omega (arith, b.replenish_counted, h);
    few_replenish = b.few_replenish;
    total = omega (arith, b.total);
    fresh = λ size l. ground (arith, b.fresh size l);
  }

  finish_replenish-Bounded : 0 < g.recorded → Bounded (finish_replenish g)
  unfolding finish_replenish
  finish_replenish-Bounded h = record {
    scale_counted = b.scale_counted;
    few_scale = b.few_scale;
    replenish_counted = omega (arith, b.replenish_counted, h);
    few_replenish = omega (arith, b.few_replenish);
    total = b.total;
    fresh = λ size l. b.fresh size l;
  }

  remove_conn-Bounded : Bounded (remove_conn g)
  unfolding remove_conn
  remove_conn-Bounded = record {
    scale_counted = b.scale_counted;
    few_scale = b.few_scale;
    replenish_counted = b.replenish_counted;
    few_replenish = b.few_replenish;
    total = omega (arith, b.total);
    fresh = λ size l. ground (arith, b.fresh size l);
  }

Step-Bounded : (g h : Group) → Step ⊥ g h → Bounded g → Bounded h
Step-Bounded g _ (looks l) b = look_scale-Bounded g b
Step-Bounded g _ (scales size l) b = scale_looked-Bounded g b size l
Step-Bounded g _ (scale_appends h) b = append_scaled-Bounded g b h
Step-Bounded g _ (scale_fails h) b = scale_failed-Bounded g b h
Step-Bounded g _ (scale_ends h e) b = finish_scale-Bounded g b h e
Step-Bounded g _ (counts c) b = count_conns-Bounded g b
Step-Bounded g _ (reserves now count c) b = replenish_pool-Bounded g b now count c
Step-Bounded g _ (appends h) b = append_replenished-Bounded g b h
Step-Bounded g _ (succeeds h) b = record_replenish_success-Bounded g b h
Step-Bounded g _ (fails now delay h) b = record_replenish_failure-Bounded g b now delay h
Step-Bounded g _ (finishes h) b = finish_replenish-Bounded g b h
Step-Bounded g _ removes b = remove_conn-Bounded g b
Step-Bounded g _ (wakes sleeps c) b = elim sleeps [ ]

Reachable-Bounded : (g : Group) → Reachable ⊥ g → Bounded g
unfolding slack
Reachable-Bounded _ (started size h) = record {
  scale_counted = refl;
  few_scale = omega arith;
  replenish_counted = refl;
  few_replenish = omega arith;
  total = omega (arith, h);
  fresh = λ k e. ground (arith, e);
}
Reachable-Bounded _ (stepped {g} {h} r s) = Step-Bounded g h s (Reachable-Bounded g r)

-- An empty pool that woke n times while no attempt ended.
abbrev pub woken_load : ℕ → Group
woken_load n = record (connected 0) { replenishing = n * replenish_parallelism }

all_woken : (n : ℕ) → Reachable (Unit {0}) (woken_load n)
unfolding reset_replenish_backoff replenish_pool reserve_replenish count_conns
all_woken zero = started 0 (omega arith)
all_woken (suc n) =
    subst (λ k. Reachable (Unit {0}) (record (connected 0) { replenishing = k })) (omega arith)
      (stepped (stepped (stepped (all_woken n) (counts refl)) (reserves 0 0 refl)) (wakes tt refl))

Reachable-replenishing :
    (n : ℕ) → (g : Group) × Reachable (Unit {0}) g × (g.replenishing ≡ n * replenish_parallelism)
Reachable-replenishing n = (woken_load n, all_woken n, refl)

-- While the system does not sleep, scaleInFlight and replenishInFlight count the attempts of their
-- kind, from their start to their deferred call, and are two at most. The pool with the attempts that
-- still connect passes maxPoolSize by at most two while maintainOnce stands between its count and
-- reserveReplenish, and by at most four else. With
-- sleeping the limit on the attempts to replenish is lost: a wake sets replenishInFlight to 0 while
-- attempts run, and any number of pairs of them can run at once.
pub Reachable-attempts :
    (g : Group) (n : ℕ)
    → Reachable ⊥ g
    → Bounded g
      × ((k : Group) × Reachable (Unit {0}) k × (k.replenishing ≡ n * replenish_parallelism))
Reachable-attempts g n r = (Reachable-Bounded g r, Reachable-replenishing n)
