-- ===== src/Pool/Adapters/SqlFactory.antt =====
-- pool/adapters/sql.go: the configuration and the two factories of SQL connections.
use fyer_kit.Prelude.{
  ℕ, Bool, true, false, List, [], ◌∷◌, ◌++◌, Option, none, some, if◌then◌else◌, ◌⊎◌, inl, inr,
}
use fyer_kit.Pool.Adapters.Sql.{
  SqlError, configuration_is_nil, failed_to_open, failed_to_ping, failed_to_initialise,
  failed_to_get_connection, HealthQuery, select_one, select_one_from_dual, SqlConnection,
}

-- The driver names that DefaultSQLConfig lists, and any other.
pub data Driver : Type 0 where
  postgres pgx mysql sqlite3 sqlserver oracle godror : Driver
  other_driver : ℕ → Driver

-- `init` says whether there is an InitFunc.
pub record SqlDbConfig : Type 0 where
  pub driver_name : Driver
  pub data_source_name : ℕ
  pub health_check_sql : HealthQuery
  pub max_open_conns : ℕ
  pub max_idle_conns : ℕ
  pub conn_max_lifetime : ℕ
  pub conn_max_idle_time : ℕ
  pub use_individual_conns : Bool
  pub init : Bool

abbrev pub health_query_for : Driver → HealthQuery
health_query_for oracle = select_one_from_dual
health_query_for godror = select_one_from_dual
health_query_for postgres = select_one
health_query_for pgx = select_one
health_query_for mysql = select_one
health_query_for sqlite3 = select_one
health_query_for sqlserver = select_one
health_query_for (other_driver n) = select_one

-- Durations are in nanoseconds.
unfoldable pub default_sql_config : Driver → ℕ → SqlDbConfig
default_sql_config driver source = record {
  driver_name = driver;
  data_source_name = source;
  health_check_sql = health_query_for driver;
  max_open_conns = 10;
  max_idle_conns = 5;
  conn_max_lifetime = 1_800_000_000_000;
  conn_max_idle_time = 600_000_000_000;
  use_individual_conns = false;
  init = false;
}

-- What the driver answers: Open gives a database or an error; Ping, InitFunc and Close an error or none.
pub record OpenAnswers : Type 0 where
  pub opened : ℕ ⊎ SqlError
  pub pinged : Option SqlError
  pub initialised : Option SqlError

pub record SqlConnectionFactory : Type 0 where
  pub db : Option ℕ
  pub config : SqlDbConfig

-- The calls that set the database up and close it, in their order.
pub data DbCall : Type 0 where
  opens closes_db : ℕ → DbCall
  sets_max_open sets_max_idle sets_max_lifetime sets_max_idle_time : ℕ → ℕ → DbCall

abbrev pub set_limits : SqlDbConfig → ℕ → List DbCall
set_limits config db =
    sets_max_open db config.max_open_conns
    ∷ sets_max_idle db config.max_idle_conns
    ∷ sets_max_lifetime db config.conn_max_lifetime
    ∷ sets_max_idle_time db config.conn_max_idle_time
    ∷ []

-- InitFunc is called if there is one.
unfoldable pub initialise :
    Option SqlError → Bool → SqlDbConfig → ℕ → (SqlConnectionFactory ⊎ SqlError) × List DbCall
initialise none has_init config db = (inl (record { db = some db; config = config }), [])
initialise (some e) false config db = (inl (record { db = some db; config = config }), [])
initialise (some e) true config db = (inr (failed_to_initialise e), closes_db db ∷ [])

unfoldable pub ping_first :
    OpenAnswers
    → Option SqlError
    → SqlDbConfig
    → ℕ
    → (SqlConnectionFactory ⊎ SqlError) × List DbCall
unfolding initialise
ping_first a (some e) config db = (inr (failed_to_ping e), closes_db db ∷ [])
ping_first a none config db = initialise a.initialised config.init config db

unfoldable pub with_opened :
    OpenAnswers → ℕ ⊎ SqlError → SqlDbConfig → (SqlConnectionFactory ⊎ SqlError) × List DbCall
unfolding ping_first
with_opened a (inr e) config = (inr (failed_to_open e), [])
with_opened a (inl db) config =
    let (r, calls) = ping_first a a.pinged config db in
    (r, opens db ∷ (set_limits config db ++ calls))

unfoldable pub new_sql_connection_factory :
    OpenAnswers → Option SqlDbConfig → (SqlConnectionFactory ⊎ SqlError) × List DbCall
unfolding with_opened
new_sql_connection_factory a none = (inr configuration_is_nil, [])
new_sql_connection_factory a (some config) = with_opened a a.opened config

unfoldable pub new_sql_connection : Option ℕ → Option ℕ → HealthQuery → ℕ → SqlConnection
new_sql_connection db conn query now = record {
  db = db;
  conn = conn;
  tx = none;
  last_used = now;
  closed = false;
  health_sql = query;
  next_tx = 0;
  calls = [];
}

-- Create, with what `db.Conn` answers and the time.
abbrev pub create_individual : ℕ ⊎ SqlError → ℕ → SqlConnectionFactory → SqlConnection ⊎ SqlError
create_individual (inl n) now f =
    inl (new_sql_connection f.db (some n) f.config.health_check_sql now)
create_individual (inr e) now f = inr (failed_to_get_connection e)

unfoldable pub create : ℕ ⊎ SqlError → ℕ → SqlConnectionFactory → SqlConnection ⊎ SqlError
create answer now f =
    if f.config.use_individual_conns
    then create_individual answer now f
    else inl (new_sql_connection f.db none f.config.health_check_sql now)

abbrev pub close_db : Option ℕ → Option SqlError → Option SqlError × List DbCall
close_db none answer = (none, [])
close_db (some db) answer = (answer, closes_db db ∷ [])

unfoldable pub close_factory :
    Option SqlError → SqlConnectionFactory → Option SqlError × List DbCall
close_factory answer f = close_db f.db answer

pub record ExistingDbFactory : Type 0 where
  pub db : Option ℕ
  pub health_sql : HealthQuery

unfoldable pub with_existing_db : Option ℕ → HealthQuery → ExistingDbFactory
with_existing_db db query = record { db = db; health_sql = query }

unfoldable pub create_from_existing : ℕ → ExistingDbFactory → SqlConnection
unfolding new_sql_connection
create_from_existing now f = new_sql_connection f.db none f.health_sql now
