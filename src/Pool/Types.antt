-- ===== src/Pool/Types.antt =====
-- pool/interface.go and pool/options.go: the pool's types and options. Times are numbers of nanoseconds, and
-- the options that are limits are not negative.
use fyer_kit.Prelude.{ℕ, ◌+◌, Bool, true, false, Option, none, some, ltb, ◌==◌}

-- An int that is only counted up and down is the numbers of its increments and decrements, so that it may
-- be negative. It would wrap where they are 2 ^ 63 apart.
pub record Count : Type 0 where
  pub ups : ℕ
  pub downs : ℕ

abbrev pub zero_count : Count
zero_count = record { ups = 0; downs = 0 }

abbrev pub up : Count → Count
up c = record c { ups = c.ups + 1 }

abbrev pub down : Count → Count
down c = record c { downs = c.downs + 1 }

abbrev pub is_zero : Count → Bool
is_zero c = c.ups == c.downs

-- `n <= c`
abbrev pub reaches : ℕ → Count → Bool
reaches n c = ltb (n + c.downs) (c.ups + 1)

pub data State : Type 0 where
  idle_state in_use state_closed : State

-- A pooledConnection; `id` is its identity, and that of the connection under it.
pub record Conn : Type 0 where
  pub id : ℕ
  pub created_at : ℕ
  pub last_used : ℕ
  pub state : State

pub data Event : Type 0 where
  event_get event_put event_close event_new : Event

pub data PoolError : Type 0 where
  pool_closed pool_full connection_timeout too_many_waiters invalid_connection create_failed
        callback_failed :
      PoolError

-- MaxIdleTime, MaxLifetime and CreatedAt repeat the options and the time of creation. The counters of type
-- int64 are their 64 bits.
pub record Stats : Type 0 where
  pub active : Count
  pub idle : Count
  pub total : Count
  pub waiters : Count
  pub timeouts : ℕ
  pub errors : ℕ
  pub acquired : ℕ
  pub released : ℕ

unfoldable pub new_stats : Stats
new_stats = record {
  active = zero_count;
  idle = zero_count;
  total = zero_count;
  waiters = zero_count;
  timeouts = 0;
  errors = 0;
  acquired = 0;
  released = 0;
}

-- Without the durations that only end a wait or a dial, OnClose, which nothing calls, and the listeners.
pub record PoolOptions : Type 0 where
  pub initial_size : ℕ
  pub max_idle : ℕ
  pub max_active : ℕ
  pub max_idle_time : ℕ
  pub max_lifetime : ℕ
  pub max_waiters : ℕ
  pub min_evictable_idle : ℕ
  pub health_check : Option (Conn → Bool)
  pub max_retries : ℕ
  pub test_on_borrow : Bool
  pub test_on_return : Bool

unfoldable pub default_options : PoolOptions
default_options = record {
  initial_size = 0;
  max_idle = 10;
  max_active = 100;
  max_idle_time = 300_000_000_000;
  max_lifetime = 1_800_000_000_000;
  max_waiters = 0;
  min_evictable_idle = 2;
  health_check = none;
  max_retries = 3;
  test_on_borrow = true;
  test_on_return = false;
}

unfoldable pub with_initial_size : ℕ → PoolOptions → PoolOptions
with_initial_size n o = record o { initial_size = n }

unfoldable pub with_max_idle : ℕ → PoolOptions → PoolOptions
with_max_idle n o = record o { max_idle = n }

unfoldable pub with_max_active : ℕ → PoolOptions → PoolOptions
with_max_active n o = record o { max_active = n }

unfoldable pub with_max_idle_time : ℕ → PoolOptions → PoolOptions
with_max_idle_time t o = record o { max_idle_time = t }

unfoldable pub with_max_lifetime : ℕ → PoolOptions → PoolOptions
with_max_lifetime t o = record o { max_lifetime = t }

unfoldable pub with_max_waiters : ℕ → PoolOptions → PoolOptions
with_max_waiters n o = record o { max_waiters = n }

unfoldable pub with_min_evictable_idle : ℕ → PoolOptions → PoolOptions
with_min_evictable_idle n o = record o { min_evictable_idle = n }

unfoldable pub with_health_check : (Conn → Bool) → PoolOptions → PoolOptions
with_health_check check o = record o { health_check = some check }

unfoldable pub with_max_retries : ℕ → PoolOptions → PoolOptions
with_max_retries n o = record o { max_retries = n }

unfoldable pub with_test_on_borrow : Bool → PoolOptions → PoolOptions
with_test_on_borrow b o = record o { test_on_borrow = b }

unfoldable pub with_test_on_return : Bool → PoolOptions → PoolOptions
with_test_on_return b o = record o { test_on_return = b }
