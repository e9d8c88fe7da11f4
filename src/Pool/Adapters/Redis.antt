-- ===== src/Pool/Adapters/Redis.antt =====
-- pool/adapters/redis.go: RedisConnection and its factories. Each method holds the connection's lock throughout. The client of
-- the redis package is a number, and its answers are inputs.
use fyer_kit.Prelude.{
  ℕ, ◌⊎◌, inl, inr, Bool, true, false, Option, none, some, List, [], ◌∷◌, if◌then◌else◌,
}

-- `health` is the custom check.
pub record RedisConnection : Type 0 where
  pub client : ℕ
  pub last_used : ℕ
  pub closed : Bool
  pub health : Option (ℕ → Bool)

-- The connection is only marked.
unfoldable pub close : RedisConnection → RedisConnection
close c = if c.closed then c else record c { closed = true }

unfoldable pub raw : RedisConnection → ℕ
raw c = c.client

abbrev pub healthy : Option (ℕ → Bool) → Bool → ℕ → Bool
healthy none pong n = pong
healthy (some check) pong n = check n

-- `pong` says that PING answers "PONG" without an error.
unfoldable pub is_alive : Bool → RedisConnection → Bool
is_alive pong c = if c.closed then false else healthy c.health pong c.client

unfoldable pub reset_state : ℕ → RedisConnection → RedisConnection
reset_state now c = record c { last_used = now; closed = false }

-- Durations are in nanoseconds, and texts are numbers; 0 is the empty one, and `local_address` is "localhost:6379". The options of
-- TLS, which Create does not use, are left out.
pub record RedisConfig : Type 0 where
  pub addr : ℕ
  pub username : ℕ
  pub password : ℕ
  pub database : ℕ
  pub pool_size : ℕ
  pub min_idle_conns : ℕ
  pub max_conn_age : ℕ
  pub dial_timeout : ℕ
  pub read_timeout : ℕ
  pub write_timeout : ℕ
  pub pool_timeout : ℕ
  pub health_check : Option (ℕ → Bool)

unfoldable pub default_redis_config : ℕ → RedisConfig
default_redis_config local_address = record {
  addr = local_address;
  username = 0;
  password = 0;
  database = 0;
  pool_size = 10;
  min_idle_conns = 2;
  max_conn_age = 0;
  dial_timeout = 5_000_000_000;
  read_timeout = 3_000_000_000;
  write_timeout = 3_000_000_000;
  pool_timeout = 4_000_000_000;
  health_check = none;
}

pub record RedisConnectionFactory : Type 0 where
  pub config : RedisConfig

unfoldable pub new_redis_connection_factory : ℕ → Option RedisConfig → RedisConnectionFactory
unfolding default_redis_config
new_redis_connection_factory local_address none = record {
  config = default_redis_config local_address;
}
new_redis_connection_factory local_address (some config) = record { config = config }

-- An error of the ping, or a connection of the client; with it, the clients that were closed.
unfoldable pub connect : Option ℕ → Option (ℕ → Bool) → ℕ → ℕ → RedisConnection ⊎ ℕ
connect (some e) health client now = inr e
connect none health client now =
    inl (record { client = client; last_used = now; closed = false; health = health })

abbrev pub close_failed : ℕ → RedisConnection ⊎ ℕ → (RedisConnection ⊎ ℕ) × List ℕ
close_failed client (inl c) = (inl c, [])
close_failed client (inr e) = (inr e, client ∷ [])

-- Create, where the client that it builds from the configuration is `build config`, and `pinged` is what the ping answers.
unfoldable pub create :
    (RedisConfig → ℕ) → Option ℕ → ℕ → RedisConnectionFactory → (RedisConnection ⊎ ℕ) × List ℕ
unfolding connect
create build pinged now f =
    close_failed (build f.config) (connect pinged f.config.health_check (build f.config) now)

pub record PreCreatedRedisFactory : Type 0 where
  pub client : ℕ
  pub health : Option (ℕ → Bool)

unfoldable pub with_redis_client : ℕ → Option (ℕ → Bool) → PreCreatedRedisFactory
with_redis_client client health = record { client = client; health = health }

unfoldable pub create_from_client : Option ℕ → ℕ → PreCreatedRedisFactory → RedisConnection ⊎ ℕ
unfolding connect
create_from_client pinged now f = connect pinged f.health f.client now
