-- ===== src/Pool/Adapters/Sql.antt =====
-- pool/adapters/sql.go: SQLConnection. Each method holds the connection's lock throughout, so it is a function of the
-- connection and of what the driver answers, where `none` is no error.
use fyer_kit.Prelude.{
  ℕ, ◌+◌, Bool, true, false, not, ◌&&◌, List, ◌∷◌, Option, none, some, if◌then◌else◌,
}

pub data SqlError : Type 0 where
  driver_error : ℕ → SqlError
  connection_is_closed transaction_already_started no_database_connection no_transaction_to_commit
        no_transaction_to_rollback configuration_is_nil :
      SqlError
  failed_to_start failed_to_reset failed_to_commit failed_to_open failed_to_ping
        failed_to_initialise failed_to_get_connection :
      SqlError → SqlError
  rollback_failed_too : SqlError → SqlError → SqlError

-- A call of the driver that changes something there; a transaction is named by its number.
pub data SqlCall : Type 0 where
  begins commits rolls_back closes_conn : ℕ → SqlCall

pub data HealthQuery : Type 0 where
  no_query select_one select_one_from_dual : HealthQuery
  other_query : ℕ → HealthQuery

abbrev pub is_empty_query : HealthQuery → Bool
is_empty_query no_query = true
is_empty_query select_one = false
is_empty_query select_one_from_dual = false
is_empty_query (other_query n) = false

abbrev pub is_set {ℓ} : {A : Type ℓ} → Option A → Bool
is_set none = false
is_set (some a) = true

-- `next_tx` is the number of transactions begun on the connection, and `calls` a log, newest first.
pub record SqlConnection : Type 0 where
  pub db : Option ℕ
  pub conn : Option ℕ
  pub tx : Option ℕ
  pub last_used : ℕ
  pub closed : Bool
  pub health_sql : HealthQuery
  pub next_tx : ℕ
  pub calls : List SqlCall

-- `c.tx.Rollback()` and `c.tx = nil`, if there is a transaction.
unfoldable pub end_held :
    Option ℕ → Option SqlError → SqlConnection → Option SqlError × SqlConnection
end_held none answer c = (none, c)
end_held (some t) answer c = (answer, record c { tx = none; calls = rolls_back t ∷ c.calls })

abbrev pub first_error : Option SqlError → Option SqlError → Option SqlError
first_error none e = e
first_error (some e) e' = some e

unfoldable pub close_held :
    Option ℕ → Option SqlError → Option SqlError × SqlConnection → Option SqlError × SqlConnection
close_held none answer (e, c) = (e, c)
close_held (some n) answer (e, c) =
    (first_error e answer, record c { conn = none; calls = closes_conn n ∷ c.calls })

-- Close, with the answers of Rollback and of the connection's Close.
unfoldable pub close :
    Option SqlError → Option SqlError → SqlConnection → Option SqlError × SqlConnection
close rollback closing c =
    let (e, d) = close_held c.conn closing (end_held c.tx rollback c) in
    if c.closed then (none, c) else (e, record d { closed = true })

pub data RawSql : Type 0 where
  raw_tx raw_conn : ℕ → RawSql
  raw_db : Option ℕ → RawSql

abbrev pub raw_of : Option ℕ → Option ℕ → Option ℕ → RawSql
raw_of (some t) conn db = raw_tx t
raw_of none (some n) db = raw_conn n
raw_of none none db = raw_db db

unfoldable pub raw : SqlConnection → RawSql
raw c = raw_of c.tx c.conn c.db

-- IsAlive, with the answers of the query and of the ping.
unfoldable pub is_alive : Bool → Bool → SqlConnection → Bool
is_alive query_ok ping_ok c =
    if c.closed
    then false
    else if is_set c.conn && not (is_empty_query c.health_sql)
    then query_ok
    else if is_set c.db
    then ping_ok
    else false

-- The part of ResetState behind the transaction.
abbrev pub refresh : ℕ → SqlConnection → Option SqlError × SqlConnection
refresh now c = (none, record c { last_used = now; closed = false })

unfoldable pub reset_held :
    Option ℕ → Option SqlError → ℕ → SqlConnection → Option SqlError × SqlConnection
reset_held none answer now c = refresh now c
reset_held (some t) none now c =
    refresh now (record c { tx = none; calls = rolls_back t ∷ c.calls })
reset_held (some t) (some e) now c =
    (some (failed_to_reset e), record c { calls = rolls_back t ∷ c.calls })

unfoldable pub reset_state : Option SqlError → ℕ → SqlConnection → Option SqlError × SqlConnection
reset_state rollback now c = reset_held c.tx rollback now c

-- What BeginTx returns: an error or a transaction.
pub data Begun : Type 0 where
  not_begun : SqlError → Begun
  begun : ℕ → Begun

unfoldable pub start_tx : Option SqlError → SqlConnection → Begun × SqlConnection
start_tx none c = (
  begun c.next_tx,
  record c { tx = some c.next_tx; next_tx = c.next_tx + 1; calls = begins c.next_tx ∷ c.calls },
)
start_tx (some e) c = (not_begun (failed_to_start e), c)

unfoldable pub begin_tx : Option SqlError → SqlConnection → Begun × SqlConnection
begin_tx answer c =
    let started = start_tx answer c in
    if c.closed
    then (not_begun connection_is_closed, c)
    else if is_set c.tx
    then (not_begun transaction_already_started, c)
    else if is_set c.conn
    then started
    else if is_set c.db
    then started
    else (not_begun no_database_connection, c)

unfoldable pub commit_held :
    Option ℕ → Option SqlError → SqlConnection → Option SqlError × SqlConnection
commit_held none answer c = (some no_transaction_to_commit, c)
commit_held (some t) answer c = (answer, record c { tx = none; calls = commits t ∷ c.calls })

unfoldable pub commit_tx : Option SqlError → SqlConnection → Option SqlError × SqlConnection
commit_tx answer c = commit_held c.tx answer c

unfoldable pub rollback_held :
    Option ℕ → Option SqlError → SqlConnection → Option SqlError × SqlConnection
rollback_held none answer c = (some no_transaction_to_rollback, c)
rollback_held (some t) answer c = end_held (some t) answer c

unfoldable pub rollback_tx : Option SqlError → SqlConnection → Option SqlError × SqlConnection
rollback_tx answer c = rollback_held c.tx answer c
