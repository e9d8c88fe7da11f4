-- ===== src/Pool.antt =====
-- pool/pool.go: ConnectionPool. Each method is a function of the pool's state and of what the code around
-- it answers. The clock, the connections, the factory and the callback OnCreate are inputs; what
-- other goroutines do while a Get waits or dials is a function on the state, called `others`.
-- Between those points a method is taken to run alone.
pub mod Types
pub mod Get
pub mod Books
pub mod Lend
pub mod Put
pub mod Tidy
pub mod Limit
pub mod Adapters
mod Tests
use fyer_kit.Prelude.{
  ℕ, zero, suc, ◌+◌, Bool, true, false, not, ◌&&◌, ◌||◌, List, [], ◌∷◌, ◌++◌, Option, none, some,
  ltb, leb, ◌==◌, if◌then◌else◌, length,
}
use fyer_kit.Prelude.Word.{add_one_u64}
use fyer_kit.Pool.Types.{
  Count, up, down, is_zero, Conn, idle_state, in_use, PoolOptions, Stats, Event, event_get,
  event_put, event_close, event_new, PoolError, pool_closed, pool_full, invalid_connection,
  new_stats,
}

-- `idle` is the channel, `none` once the field is nil; `idle_closed` says that the channel was closed. `active_conns` is the sync.Map of the connections that are out.
-- `events` and `closed_raw` are logs, newest first: the calls of the listeners, and the underlying
-- connections that were closed. `next_id` is the identity of the next connection made.
pub record ConnectionPool : Type 0 where
  pub opts : PoolOptions
  pub idle : Option (List Conn)
  pub active_conns : List Conn
  pub stats : Stats
  pub closed : Bool
  pub idle_closed : Bool
  pub events : List (Event × Conn)
  pub closed_raw : List ℕ
  pub next_id : ℕ

abbrev pub update_stats : (Stats → Stats) → ConnectionPool → ConnectionPool
update_stats f p = record p { stats = f p.stats }

abbrev pub notify_event : Event → Conn → ConnectionPool → ConnectionPool
notify_event e c p = record p { events = (e, c) ∷ p.events }

-- `pc.conn.Close()`
abbrev pub close_raw : Conn → ConnectionPool → ConnectionPool
close_raw c p = record p { closed_raw = c.id ∷ p.closed_raw }

-- `pc.conn.Close(); p.notifyEvent(EventClose, pc)`
abbrev pub discard : Conn → ConnectionPool → ConnectionPool
discard c p = notify_event event_close c (close_raw c p)

abbrev pub drop_idle_stats : Stats → Stats
drop_idle_stats s = record s { idle = down s.idle; total = down s.total }

abbrev pub drop_active_stats : Stats → Stats
drop_active_stats s = record s { active = down s.active; total = down s.total }

-- `activeConns.Delete(pc)`
unfoldable pub delete_conn : Conn → List Conn → List Conn
delete_conn c [] = []
delete_conn c (d ∷ ds) = let rest = delete_conn c ds in if c.id == d.id then rest else d ∷ rest

-- A receive from the idle channel that does not block.
unfoldable pub take_idle : ConnectionPool → Option (Conn × ConnectionPool)
take_idle p = elim p.idle [
  | none ↦ none
  | some l ↦ elim l [ [] ↦ none | c ∷ cs ↦ some (c, record p { idle = some cs }) ]
]

unfoldable pub expired : ℕ → PoolOptions → Conn → Bool
expired now o c =
    (ltb 0 o.max_idle_time && ltb (c.last_used + o.max_idle_time) now)
    || (ltb 0 o.max_lifetime && ltb (c.created_at + o.max_lifetime) now)

-- `conn_alive` answers for the underlying connections.
unfoldable pub is_alive : (Conn → Bool) → PoolOptions → Conn → Bool
is_alive conn_alive o c = elim o.health_check [
  | none ↦ conn_alive c
  | some check ↦ if conn_alive c then check c else false
]

-- What a Put meets: the time, the connections' IsAlive, and ResetState.
pub record Return : Type 0 where
  pub now : ℕ
  pub conn_alive : Conn → Bool
  pub reset_ok : Conn → Bool

-- A Connection: one that the pool made, or another one, which may be nil.
pub data Handle : Type 0 where
  pooled : Conn → Handle
  foreign : Option ℕ → Handle

-- Put closes the connection, and the answer depends on the pool's flag.
unfoldable pub put_discard :
    Conn → Option PoolError → ConnectionPool → Option PoolError × ConnectionPool
put_discard c e p = (e, update_stats drop_active_stats (discard c p))

-- The send to the idle channel, or the close if it is full.
unfoldable pub put_idle : Conn → List Conn → ConnectionPool → Option PoolError × ConnectionPool
put_idle c l p =
    if ltb (length l) p.opts.max_idle
    then (
      none,
      notify_event event_put c (
          update_stats
            (λ s. record s {
              active = down s.active;
              idle = up s.idle;
              released = add_one_u64 s.released;
            })
            (record p { idle = some (l ++ c ∷ []) })),
    )
    else put_discard c (some pool_full) p

-- The two ways on, by the channel.
unfoldable pub put_open :
    Option (List Conn) → Conn → ConnectionPool → Option PoolError × ConnectionPool
put_open none c p = put_discard c (some pool_closed) p
put_open (some l) c p = put_idle c l p

unfoldable pub put_pooled :
    Return → Conn → Bool → ConnectionPool → Option PoolError × ConnectionPool
put_pooled r c failed p₀ =
    let p : ConnectionPool = record p₀ { active_conns = delete_conn c p₀.active_conns } in
    let shut : Option PoolError = if p.closed then some pool_closed else none in
    let d : Conn = record c { last_used = r.now; state = idle_state } in
    if failed || (p.opts.test_on_return && not (is_alive r.conn_alive p.opts c))
    then put_discard c shut p
    else if not (r.reset_ok c)
    then put_discard c shut p
    else if p.closed
    then put_discard d (some pool_closed) p
    else put_open p.idle d p

unfoldable pub put : Return → Handle → Bool → ConnectionPool → Option PoolError × ConnectionPool
put r (pooled c) failed p = put_pooled r c failed p
put r (foreign none) failed p = (some (if p.closed then pool_closed else invalid_connection), p)
put r (foreign (some n)) failed p = (
  some (if p.closed then pool_closed else invalid_connection),
  record p { closed_raw = n ∷ p.closed_raw },
)

-- pooledConnection.Close, which hands the underlying connection to Put.
unfoldable pub close_pooled : Return → Conn → ConnectionPool → Option PoolError × ConnectionPool
close_pooled r c p = put r (foreign (some c.id)) false p

-- `for _, conn := range conns { conn.Close(); p.notifyEvent(EventClose, conn) }`
unfoldable pub discard_all : List Conn → ConnectionPool → ConnectionPool
discard_all [] p = p
discard_all (c ∷ cs) p = discard_all cs (discard c p)

-- What ends a round of Shutdown's select.
pub data Alarm : Type 0 where
  tick context_done : Alarm

pub data Outcome : Type 0 where
  finished : ConnectionPool → Outcome
  refused : PoolError → ConnectionPool → Outcome
  context_error : ConnectionPool → Outcome
  draining : ConnectionPool → Outcome

-- The loop of Shutdown, each round with what others did before it; a list that runs out leaves
-- it waiting.
unfoldable pub drain : List (Alarm × (ConnectionPool → ConnectionPool)) → ConnectionPool → Outcome
drain [] p = draining p
drain ((context_done, others) ∷ rs) p =
    let q = others p in context_error (discard_all q.active_conns q)
drain ((tick, others) ∷ rs) p =
    let later = drain rs (others p) in
    if is_zero (others p).stats.active then finished (others p) else later

abbrev pub drained : Option (List Conn) → List Conn
drained none = []
drained (some l) = l

-- `close(idle)`
abbrev pub close_channel : ConnectionPool → ConnectionPool
close_channel p = record p { idle_closed = true }

-- `p.closed = true`, the channel set to nil and closed, and its connections closed.
unfoldable pub close_idle : ConnectionPool → ConnectionPool
close_idle p =
    let q : ConnectionPool = record p { closed = true; idle = none } in
    discard_all (drained p.idle) (close_channel q)

unfoldable pub shutdown :
    List (Alarm × (ConnectionPool → ConnectionPool)) → ConnectionPool → Outcome
shutdown rs p =
    let later = drain rs (close_idle p) in
    if p.closed
    then refused pool_closed p
    else if is_zero p.stats.active
    then finished (close_idle p)
    else later

-- A round of cleanIdleConnections, with the connections found to be expired.
unfoldable pub clean_step :
    ℕ → List Conn → Option (List Conn) → ConnectionPool → List Conn × ConnectionPool
clean_step now gone none p = (gone, p)
clean_step now gone (some []) p = (gone, p)
clean_step now gone (some (c ∷ cs)) p =
    if expired now p.opts c || leb p.opts.max_idle (length cs)
    then (gone ++ c ∷ [], update_stats drop_idle_stats (record p { idle = some cs }))
    else (gone, record p { idle = some (cs ++ c ∷ []) })

-- Round `i` reads the clock as `clock i`; `n` rounds are left.
unfoldable pub clean_loop :
    (ℕ → ℕ) → ℕ → ℕ → List Conn → ConnectionPool → List Conn × ConnectionPool
clean_loop clock i zero gone p = (gone, p)
clean_loop clock i (suc n) gone p =
    let (gone', q) = clean_step (clock i) gone p.idle p in clean_loop clock (i + 1) n gone' q

unfoldable pub clean_idle_connections : (ℕ → ℕ) → ConnectionPool → ConnectionPool
clean_idle_connections clock p =
    let count = length (drained p.idle) in
    let (gone, q) = clean_loop clock 0 count [] p in
    if leb count p.opts.min_evictable_idle then p else discard_all gone q
