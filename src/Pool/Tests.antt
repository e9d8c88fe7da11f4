-- ===== src/Pool/Tests.antt =====
-- pool/pool.go: the theorems at concrete pools.
use fyer_kit.Prelude.{
  inr, ℕ, ◌+◌, ◌≡◌, refl, true, false, List, [], ◌∷◌, none, some, arith, ◌==◌, if◌then◌else◌,
}
use fyer_kit.Pool.Types.{
  Conn, idle_state, PoolOptions, default_options, with_max_active, with_min_evictable_idle,
  with_initial_size, new_stats, pool_closed,
}
use fyer_kit.Pool.{
  ConnectionPool, Return, put, pooled, foreign, clean_idle_connections, close_idle, put_pooled,
  put_open, put_idle, delete_conn, is_alive, expired,
}
use fyer_kit.Pool.Get.{
  Dial, connected, dial_refused, Answers, Wake, idle_ready, get, failed, panicked, leave_wait,
  enter_wait, below_limit, create_connection, preload_all, preload, put_back, finish_dial, new_pool,
}
use fyer_kit.Pool.Books.{IsValid, occurs}
use fyer_kit.Pool.Lend.{Lent, get-Lent}
use fyer_kit.Pool.Put.{put-IsValid, new_pool-IsValid}
use fyer_kit.Pool.Limit.{Within, ResultWithin, get-Within, put-Within}
use fyer_kit.Pool.Tidy.{fresh, stale, closing, clean-IsValid, shutdown_wakes_waiter}

abbrev dials : Dial
dials = record { others = λ p. p; dialed = connected; now = 20 }

abbrev answers : Answers
answers = record { now = 20; conn_alive = λ c. c.id == 1; dial = dials }

abbrev returns : Return
returns = record { now = 30; conn_alive = λ c. true; reset_ok = λ c. true }

abbrev initial : ℕ → Dial × Return
initial n = (record dials { dialed = if n == 1 then dial_refused else connected }, returns)

abbrev options : List (PoolOptions → PoolOptions)
options = with_initial_size 3 ∷ with_max_active 2 ∷ with_min_evictable_idle 1 ∷ []

-- Two of the three first connections are made.
abbrev started : ConnectionPool
started = new_pool options initial

new_pool-IsValid_example : IsValid started
new_pool-IsValid_example = new_pool-IsValid options initial λ j p v. v

started-IsValid : IsValid started
started-IsValid = new_pool-IsValid options initial λ j p v. v

-- The identities that the pool has, idle and out.
started_at :
    started.idle
    ≡ some (
        record { id = 0; created_at = 20; last_used = 30; state = idle_state }
        ∷ record { id = 1; created_at = 20; last_used = 30; state = idle_state }
        ∷ [])
unfolding new_pool preload_all preload put_back create_connection finish_dial put_pooled put_open
    put_idle default_options with_initial_size with_max_active with_min_evictable_idle delete_conn
    is_alive
started_at = refl

-- The first idle connection is broken, and is dropped; a new one is made.
get-Lent_example : Lent (get answers [] started)
get-Lent_example = get-Lent answers [] started (λ p v. v) tt started-IsValid

abbrev conn : ℕ → ℕ → Conn
conn n t = record { id = n; created_at = 0; last_used = t; state = idle_state }

-- Two connections are idle and one is out; the first is long idle.
abbrev three : ConnectionPool
three = record {
  opts = record default_options {
    max_idle = 2;
    max_active = 3;
    min_evictable_idle = 1;
    max_idle_time = 10;
  };
  idle = some (conn 0 5 ∷ conn 1 15 ∷ []);
  active_conns = conn 2 0 ∷ [];
  stats = record new_stats {
    active = record { ups = 3; downs = 2 };
    idle = record { ups = 2; downs = 0 };
    total = record { ups = 3; downs = 0 };
  };
  closed = false;
  idle_closed = false;
  events = [];
  closed_raw = [];
  next_id = 3;
}

three-IsValid : IsValid three
unfolding occurs default_options new_stats
three-IsValid = record {
  counts_active = refl;
  counted = (refl, refl);
  fits = omega arith;
  once = λ i. ground arith;
  old = λ i h. ground arith;
}

-- The channel has no room.
put-IsValid_example : IsValid (put returns (pooled (conn 2 0)) false three).1
put-IsValid_example =
    put-IsValid returns (conn 2 0) false three three-IsValid (unfold occurs in refl)

clean-IsValid_example :
    let q = clean_idle_connections (λ i. 20 + i) three in
    IsValid q
    × (q.idle ≡ some (fresh (λ i. 20 + i) 0 three.opts (conn 0 5 ∷ conn 1 15 ∷ [])))
    × (q.closed_raw ≡ closing (stale (λ i. 20 + i) 0 three.opts (conn 0 5 ∷ conn 1 15 ∷ [])) [])
clean-IsValid_example =
    clean-IsValid (λ i. 20 + i) three (conn 0 5 ∷ conn 1 15 ∷ []) refl three-IsValid (omega arith)

clean_at :
    (fresh (λ i. 20 + i) 0 three.opts (conn 0 5 ∷ conn 1 15 ∷ []) ≡ conn 1 15 ∷ [])
    × (stale (λ i. 20 + i) 0 three.opts (conn 0 5 ∷ conn 1 15 ∷ []) ≡ conn 0 5 ∷ [])
unfolding fresh stale expired default_options
clean_at = (refl, refl)

-- All three are out.
abbrev busy : ConnectionPool
busy = record three {
  idle = some [];
  active_conns = conn 2 0 ∷ conn 1 15 ∷ conn 0 5 ∷ [];
  stats = record new_stats {
    active = record { ups = 3; downs = 0 };
    total = record { ups = 3; downs = 0 };
  };
}

-- Another call of Put, with nil.
abbrev nil_put : ConnectionPool → ConnectionPool
nil_put p = (put returns (foreign none) false p).1

shutdown_wakes_waiter_example :
    let q = close_idle (nil_put (enter_wait busy)) in
    let w : Wake = record {
      others = λ r. close_idle (nil_put r);
      cause = idle_ready;
      answers = answers;
    } in
    (get answers (w ∷ []) busy ≡ leave_wait (panicked q))
    × (get answers [] q ≡ failed pool_closed q)
shutdown_wakes_waiter_example =
    shutdown_wakes_waiter answers answers busy [] nil_put refl refl
      (unfold below_limit default_options new_stats in refl) (unfold default_options in refl)
      (unfold put in refl)

-- The pool is at its limit; one other puts a connection back, and the Get that waits takes it, finds it expired, and makes
-- another.
abbrev one_back : Wake
one_back = record {
  others = λ p. (put returns (pooled (conn 1 15)) false p).1;
  cause = idle_ready;
  answers = record answers { now = 90 };
}

busy-Within : Within busy
unfolding default_options new_stats
busy-Within = inr (omega arith)

get-Within_example : ResultWithin (get answers (one_back ∷ []) busy)
get-Within_example =
    get-Within answers (one_back ∷ []) busy (λ p. refl)
      (λ p v. put-Within returns (conn 1 15) false p v, (tt, (λ p. refl, tt))) busy-Within
