-- ===== src/Pool/Get.antt =====
-- pool/pool.go: Get, createOrWaitForConnection, createConnection and NewPool.
use fyer_kit.Prelude.{
  ℕ, zero, suc, ◌+◌, Bool, false, not, ◌&&◌, ◌||◌, List, [], ◌∷◌, Option, none, some, ltb, ◌==◌,
  if◌then◌else◌,
}
use fyer_kit.Prelude.Word.{add_one_u64}
use fyer_kit.Pool.Types.{
  up, down, reaches, Conn, in_use, PoolOptions, Stats, event_get, event_new, PoolError, pool_closed,
  connection_timeout, too_many_waiters, create_failed, callback_failed, new_stats, default_options,
}
use fyer_kit.Pool.{
  ConnectionPool, update_stats, notify_event, discard, drop_idle_stats, take_idle, expired,
  is_alive, Return, Handle, pooled, foreign, put_pooled,
}

-- What Create and OnCreate answer.
pub data Dialed : Type 0 where
  dial_refused callback_refused connected : Dialed

-- A dial: what others do while it lasts, its answer, and the time at its end.
pub record Dial : Type 0 where
  pub others : ConnectionPool → ConnectionPool
  pub dialed : Dialed
  pub now : ℕ

-- What a Get meets at a check of a connection, and at a dial that follows it.
pub record Answers : Type 0 where
  pub now : ℕ
  pub conn_alive : Conn → Bool
  pub dial : Dial

-- A retry: what others do during the backoff, and the answers behind it.
pub record Retry : Type 0 where
  pub others : ConnectionPool → ConnectionPool
  pub answers : Answers

pub data Cause : Type 0 where
  idle_ready context_done : Cause
  deadline : List Retry → Cause

-- What a Get in its select meets: what others do, and what may wake it. Where the cause is `idle_ready` and the
-- channel is open and empty, it goes on waiting.
pub record Wake : Type 0 where
  pub others : ConnectionPool → ConnectionPool
  pub cause : Cause
  pub answers : Answers

pub data GetResult : Type 0 where
  got : Conn → ConnectionPool → GetResult
  failed : PoolError → ConnectionPool → GetResult
  waiting : ConnectionPool → GetResult
  panicked : ConnectionPool → GetResult

abbrev pub add_error : Stats → Stats
add_error s = record s { errors = add_one_u64 s.errors }

abbrev pub add_timeout : Stats → Stats
add_timeout s = record s { timeouts = add_one_u64 s.timeouts }

abbrev pub enter_wait : ConnectionPool → ConnectionPool
enter_wait = update_stats (λ s. record s { waiters = up s.waiters })

-- The deferred end of a wait. A Get that still waits has not come to it.
unfoldable pub leave_wait : GetResult → GetResult
leave_wait (got c p) = got c (update_stats (λ s. record s { waiters = down s.waiters }) p)
leave_wait (failed e p) = failed e (update_stats (λ s. record s { waiters = down s.waiters }) p)
leave_wait (panicked p) = panicked (update_stats (λ s. record s { waiters = down s.waiters }) p)
leave_wait (waiting p) = waiting p

abbrev pub new_conn : ℕ → ConnectionPool → Conn
new_conn now p = record { id = p.next_id; created_at = now; last_used = now; state = in_use }

-- The part of createConnection behind Create and OnCreate.
unfoldable pub finish_dial : Dialed → ℕ → ConnectionPool → GetResult
finish_dial dial_refused now p = failed create_failed (update_stats add_error p)
finish_dial callback_refused now p = failed callback_failed (
    update_stats add_error
      (record p { closed_raw = p.next_id ∷ p.closed_raw; next_id = p.next_id + 1 }))
finish_dial connected now p =
    let c = new_conn now p in
    got c (
      notify_event event_get c (
        notify_event event_new c (
          update_stats
            (λ s. record s {
              active = up s.active;
              total = up s.total;
              acquired = add_one_u64 s.acquired;
            })
            (record p { active_conns = c ∷ p.active_conns; next_id = p.next_id + 1 }))))

unfoldable pub create_connection : Dial → ConnectionPool → GetResult
unfolding finish_dial
create_connection d p = finish_dial d.dialed d.now (d.others p)

-- `maxActive == 0 || current < maxActive`, where current is Active + Idle.
unfoldable pub below_limit : ConnectionPool → Bool
below_limit p =
    p.opts.max_active == 0
    || ltb (p.stats.active.ups + p.stats.idle.ups)
        (p.opts.max_active + p.stats.active.downs + p.stats.idle.downs)

-- The connection changes from idle to in use.
unfoldable pub borrow : Conn → ConnectionPool → GetResult
borrow c p =
    let d : Conn = record c { state = in_use } in
    got d (
      notify_event event_get d (
        update_stats
          (λ s. record s {
            idle = down s.idle;
            active = up s.active;
            acquired = add_one_u64 s.acquired;
          })
          (record p { active_conns = d ∷ p.active_conns })))

-- `again` is the call of createOrWaitForConnection.
unfoldable pub handle_pooled :
    Answers → (ConnectionPool → GetResult) → Conn → ConnectionPool → GetResult
unfolding expired is_alive borrow
handle_pooled a again c p =
    let next = again (update_stats drop_idle_stats (discard c p)) in
    if expired a.now p.opts c
    then next
    else if p.opts.test_on_borrow && not (is_alive a.conn_alive p.opts c)
    then next
    else borrow c p

-- A connection that is not the pool's is closed, and `conn.Close()` on a nil one panics.
unfoldable pub handle_idle :
    Answers → (ConnectionPool → GetResult) → Handle → ConnectionPool → GetResult
handle_idle a again (pooled c) p = handle_pooled a again c p
handle_idle a again (foreign (some n)) p =
    again (update_stats add_error (record p { closed_raw = n ∷ p.closed_raw }))
handle_idle a again (foreign none) p = panicked p

-- `wait` is the select.
unfoldable pub create_or_wait : (ConnectionPool → GetResult) → Answers → ConnectionPool → GetResult
unfolding below_limit create_connection leave_wait
create_or_wait wait a p =
    let made = create_connection a.dial p in
    let waited = leave_wait (wait (enter_wait p)) in
    if below_limit p
    then made
    else if ltb 0 p.opts.max_waiters && reaches p.opts.max_waiters p.stats.waiters
    then failed too_many_waiters p
    else waited

-- `select { case conn := <-p.idle: handle; default: otherwise }`, on what the channel gives: it
-- holds only connections of the pool.
unfoldable pub select_idle :
    Option (Conn × ConnectionPool) → (Handle → ConnectionPool → GetResult) → GetResult → GetResult
select_idle none handle otherwise = otherwise
select_idle (some (c, p)) handle otherwise = handle (pooled c) p

-- The loop of retries: `n` are left.
unfoldable pub retry_loop :
    (Answers → ConnectionPool → GetResult) → ℕ → List Retry → ConnectionPool → GetResult
retry_loop again zero rs p = failed connection_timeout p
retry_loop again (suc n) [] p = waiting p
retry_loop again (suc n) (r ∷ rs) p =
    let q = r.others p in
    let later = retry_loop again n rs q in
    let made = create_connection r.answers.dial q in
    let taken = select_idle (take_idle q) (handle_idle r.answers (again r.answers)) later in
    if q.closed then failed pool_closed q else if below_limit q then made else taken

unfoldable pub give_up : Cause → (Answers → ConnectionPool → GetResult) → ConnectionPool → GetResult
unfolding retry_loop
give_up (deadline rs) again p =
    let retried = retry_loop again p.opts.max_retries rs (update_stats add_timeout p) in
    if ltb 0 p.opts.max_retries
    then retried
    else failed connection_timeout (update_stats add_timeout p)
give_up c again p = failed connection_timeout (update_stats add_timeout p)

unfoldable pub receive :
    Answers
    → (Answers → ConnectionPool → GetResult)
    → (ConnectionPool → GetResult)
    → ConnectionPool
    → GetResult
receive a again later q = select_idle (take_idle q) (handle_idle a (again a)) (later q)

-- The receive from the field's channel as the select began; the second is the field as it is now. A nil channel never gives
-- anything. One that is gone from the field gives nil if it was closed, since its connections were taken out, and nothing if
-- it was not.
unfoldable pub woken :
    Option (List Conn)
    → Option (List Conn)
    → Answers
    → (Answers → ConnectionPool → GetResult)
    → (ConnectionPool → GetResult)
    → ConnectionPool
    → GetResult
unfolding receive
woken none none a again later q = later q
woken none (some l) a again later q = later q
woken (some k) none a again later q =
    let got_nil = handle_idle a (again a) (foreign none) q in
    let asleep = later q in if q.idle_closed then got_nil else asleep
woken (some k) (some l) a again later q = receive a again later q

unfoldable pub wake_up :
    Option (List Conn)
    → Cause
    → Answers
    → (Answers → ConnectionPool → GetResult)
    → (ConnectionPool → GetResult)
    → ConnectionPool
    → GetResult
unfolding woken give_up
wake_up before idle_ready a again later q = woken before q.idle a again later q
wake_up before context_done a again later q = give_up context_done again q
wake_up before (deadline rs) a again later q = give_up (deadline rs) again q

-- The select of createOrWaitForConnection.
unfoldable pub wait_idle : List Wake → ConnectionPool → GetResult
unfolding wake_up create_or_wait
wait_idle [] p = waiting p
wait_idle (w ∷ ws) p =
    wake_up p.idle w.cause w.answers (create_or_wait (wait_idle ws)) (wait_idle ws) (w.others p)

unfoldable pub get : Answers → List Wake → ConnectionPool → GetResult
get a ws p =
    let again = create_or_wait (wait_idle ws) a in
    if p.closed
    then failed pool_closed p
    else select_idle (take_idle p) (handle_idle a again) (again p)

-- A connection made for the pool's start is put back at once; an error is passed over.
unfoldable pub put_back : Return → GetResult → ConnectionPool
put_back r (got c p) = (put_pooled r c false p).1
put_back r (failed e p) = p
put_back r (waiting p) = p
put_back r (panicked p) = p

unfoldable pub preload : Dial × Return → ConnectionPool → ConnectionPool
preload (d, r) p = put_back r (create_connection d p)

-- The loop of NewPool: `rounds` more connections, with the answers of each.
unfoldable pub preload_all : ℕ → ℕ → (ℕ → Dial × Return) → ConnectionPool → ConnectionPool
unfolding preload
preload_all zero i answers p = p
preload_all (suc rounds) i answers p = preload_all rounds (i + 1) answers (preload (answers i) p)

unfoldable pub apply_options : List (PoolOptions → PoolOptions) → PoolOptions → PoolOptions
apply_options [] o = o
apply_options (opt ∷ opts) o = apply_options opts (opt o)

unfoldable pub empty_pool : PoolOptions → ConnectionPool
unfolding new_stats
empty_pool o = record {
  opts = o;
  idle = some [];
  active_conns = [];
  stats = new_stats;
  closed = false;
  idle_closed = false;
  events = [];
  closed_raw = [];
  next_id = 0;
}

unfoldable pub new_pool : List (PoolOptions → PoolOptions) → (ℕ → Dial × Return) → ConnectionPool
unfolding preload_all empty_pool apply_options
new_pool options answers =
    let o = apply_options options default_options in
    preload_all o.initial_size 0 answers (empty_pool o)
