-- ===== src/Pool/Adapters/Revived.antt =====
-- pool/adapters/: ResetState, which Put calls on a connection that goes back to the pool, after Close.
use fyer_kit.Prelude.{
  ℕ, ◌≡◌, refl, ap, ◌∙◌, Bool, true, false, not, ◌&&◌, Option, none, some, if◌then◌else◌, if-intro,
}
use fyer_kit.Pool.Adapters.Sql
use fyer_kit.Pool.Adapters.Http
use fyer_kit.Pool.Adapters.Redis
use fyer_kit.Pool.Adapters.Grpc
use fyer_kit.Pool.Adapters.Sql.{SqlError, SqlConnection, HealthQuery, is_set, raw_db}
use fyer_kit.Pool.Adapters.Http.{HttpConnection}
use fyer_kit.Pool.Adapters.Redis.{RedisConnection}
use fyer_kit.Pool.Adapters.Grpc.{GrpcConnection, ConnState}

stop_timer_kept : (o : Option ℕ) (c : HttpConnection) → (Http.stop_timer o c).closed ≡ c.closed
unfolding Http.stop_timer
stop_timer_kept none c = refl
stop_timer_kept (some t) c = refl

http_closed : (c : HttpConnection) → (Http.close c).closed ≡ true
unfolding Http.close
http_closed c = if-intro (λ (d : HttpConnection). d.closed ≡ true) c.closed (λ e. e) λ _. refl

http_stays_closed :
    (c : HttpConnection) (now : ℕ) → Http.is_alive (Http.reset_state now (Http.close c)) ≡ false
unfolding Http.is_alive Http.reset_state
http_stays_closed c now =
    let d = Http.close c in
    ap not (stop_timer_kept d.timer (record d { last_used = now }) ∙ http_closed c)

-- The client connection is asked, whatever ResetState does with its backoff.
grpc_open :
    (c : GrpcConnection) (now : ℕ) (state : ConnState)
    → Grpc.is_alive state (Grpc.reset_state state now c) ≡ Grpc.healthy c.health_cfg state c.conn
unfolding Grpc.is_alive Grpc.reset_state
grpc_open c now state =
    if-intro
      (λ (d : GrpcConnection).
        (if d.closed then false else Grpc.healthy d.health_cfg state d.conn)
        ≡ Grpc.healthy c.health_cfg state c.conn)
      (not (Grpc.ready_or_idle state)) (λ _. refl) λ _. refl

sql_closed :
    (t o : Option ℕ) (a b : Option SqlError) (c : SqlConnection)
    → c.closed ≡ false
    → c.tx ≡ t
    → c.conn ≡ o
    → let d = (Sql.close a b c).1 in (d.conn ≡ none) × (d.tx ≡ none) × (d.db ≡ c.db)
unfolding Sql.close Sql.close_held Sql.end_held
sql_closed none none a b c open_now held e = rw (open_now, held, e) (refl, refl, refl)
sql_closed none (some n) a b c open_now held e = rw (open_now, held, e) (refl, refl, refl)
sql_closed (some t) none a b c open_now held e = rw (open_now, held, e) (refl, refl, refl)
sql_closed (some t) (some n) a b c open_now held e = rw (open_now, held, e) (refl, refl, refl)

sql_reset :
    (c : SqlConnection) (now : ℕ) (x : Option SqlError) (query_ok ping_ok : Bool)
    → c.tx ≡ none
    → c.conn ≡ none
    → let d = (Sql.reset_state x now c).1 in
      (Sql.is_alive query_ok ping_ok d ≡ (is_set c.db && ping_ok)) × (Sql.raw d ≡ raw_db c.db)
unfolding Sql.reset_state Sql.reset_held Sql.is_alive Sql.raw
sql_reset c now x query_ok ping_ok free gone = rw (free, gone) (asked (is_set c.db), refl)
  where
    asked : (b : Bool) → (if b then ping_ok else false) ≡ (b && ping_ok)
    asked true = refl
    asked false = refl

-- Close and then ResetState leave an HTTP connection not alive, and an open Redis, gRPC or SQL connection as alive as its
-- checks say: Redis by its health function or PING, gRPC by its health check or the state of the client connection that
-- was closed, SQL by a ping of the database, with neither its own connection nor a transaction left, also when Close found one held and
-- whatever the driver answered to its rollback.
pub close_revived :
    (h : HttpConnection) (r : RedisConnection) (g : GrpcConnection) (s : SqlConnection) (now : ℕ)
    (pong query_ok ping_ok : Bool) (state : ConnState) (e : Option ℕ) (a b x : Option SqlError)
    → r.closed ≡ false
    → g.closed ≡ false
    → s.closed ≡ false
    → let s' = (Sql.reset_state x now (Sql.close a b s).1).1 in
      (Http.is_alive (Http.reset_state now (Http.close h)) ≡ false)
      × (Redis.is_alive pong (Redis.reset_state now (Redis.close r))
          ≡ Redis.healthy r.health pong r.client)
      × (Grpc.is_alive state (Grpc.reset_state state now (Grpc.close e g).1)
          ≡ Grpc.healthy g.health_cfg state g.conn)
      × (Sql.is_alive query_ok ping_ok s' ≡ (is_set s.db && ping_ok))
      × (Sql.raw s' ≡ raw_db s.db)
close_revived h r g s now pong query_ok ping_ok state e a b x ro go so = (
  http_stays_closed h now,
  unfold Redis.is_alive Redis.reset_state Redis.close in rw ro refl,
  grpc_open (Grpc.close e g).1 now state ∙ unfold Grpc.close in rw go refl,
  (sql_reset (Sql.close a b s).1 now x query_ok ping_ok gone.1 gone.0).0
      ∙ ap (λ d. is_set d && ping_ok) gone.2,
  (sql_reset (Sql.close a b s).1 now x query_ok ping_ok gone.1 gone.0).1 ∙ ap raw_db gone.2,
)
  where
    gone : let d = (Sql.close a b s).1 in (d.conn ≡ none) × (d.tx ≡ none) × (d.db ≡ s.db)
    gone = sql_closed s.tx s.conn a b s so refl refl
