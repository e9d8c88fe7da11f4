-- ===== src/Pool/Limit.antt =====
-- pool/pool.go: MaxActive, where no other call changes the pool while a connection is dialled.
use fyer_kit.Prelude.{
  ℕ, zero, suc, ◌+◌, ◌≤◌, ◌≡◌, ◌⊎◌, Bool, true, not, ◌&&◌, ◌||◌, List, [], ◌∷◌, Option, none, some,
  arith, ltb, if-intro, length,
}
use fyer_kit.Pool.Types.{
  Conn, idle_state, pool_full, reaches, too_many_waiters, pool_closed, PoolError,
}
use fyer_kit.Pool.{
  ConnectionPool, Return, Handle, pooled, foreign, put, put_pooled, put_open, put_idle, put_discard,
  delete_conn, update_stats, discard, drop_idle_stats, take_idle, expired, is_alive,
}
use fyer_kit.Pool.Get.{
  Dialed, dial_refused, callback_refused, connected, Dial, Answers, Retry, Cause, idle_ready,
  context_done, deadline, Wake, GetResult, got, failed, waiting, panicked, woken, enter_wait,
  leave_wait, finish_dial, create_connection, below_limit, borrow, handle_idle, handle_pooled,
  create_or_wait, retry_loop, give_up, select_idle, receive, wake_up, wait_idle, get, add_timeout,
}

-- The connections that are out or idle, as the counters have them, are no more than MaxActive.
abbrev pub Within : ConnectionPool → Type 0
Within p =
    (p.opts.max_active ≡ 0)
    ⊎ (p.stats.active.ups + p.stats.idle.ups
        ≤ p.opts.max_active + p.stats.active.downs + p.stats.idle.downs)

abbrev pub ResultWithin : GetResult → Type 0
ResultWithin (got c p) = Within p
ResultWithin (failed e p) = Within p
ResultWithin (waiting p) = Within p
ResultWithin (panicked p) = Within p

-- A dial during which no other call changes the pool.
abbrev pub Alone : Dial → Type 0
Alone d = (p : ConnectionPool) → d.others p ≡ p

abbrev pub KeepsWithin : (ConnectionPool → ConnectionPool) → Type 0
KeepsWithin f = (p : ConnectionPool) → Within p → Within (f p)

abbrev pub RetriesAlone : List Retry → Type 0
RetriesAlone [] = Unit
RetriesAlone (r ∷ rs) = KeepsWithin r.others × (Alone r.answers.dial × RetriesAlone rs)

abbrev pub CauseAlone : Cause → Type 0
CauseAlone idle_ready = Unit
CauseAlone context_done = Unit
CauseAlone (deadline rs) = RetriesAlone rs

abbrev pub WakesAlone : List Wake → Type 0
WakesAlone [] = Unit
WakesAlone (w ∷ ws) =
    KeepsWithin w.others × (CauseAlone w.cause × (Alone w.answers.dial × WakesAlone ws))

leave_wait-Within : (r : GetResult) → ResultWithin r → ResultWithin (leave_wait r)
unfolding leave_wait
leave_wait-Within (got c p) v = v
leave_wait-Within (failed e p) v = v
leave_wait-Within (waiting p) v = v
leave_wait-Within (panicked p) v = v

finish_dial-Within :
    (d : Dialed) (now : ℕ) (p : ConnectionPool)
    → below_limit p ≡ true
    → Within p
    → ResultWithin (finish_dial d now p)
unfolding finish_dial below_limit
finish_dial-Within dial_refused now p b v = v
finish_dial-Within callback_refused now p b v = v
finish_dial-Within connected now p b v = ground (arith, b)

create-Within :
    (d : Dial) (p : ConnectionPool)
    → Alone d
    → below_limit p ≡ true
    → Within p
    → ResultWithin (create_connection d p)
unfolding create_connection
create-Within d p k b v = rw (k p) (finish_dial-Within d.dialed d.now p b v)

borrow-Within : (c : Conn) (p : ConnectionPool) → Within p → ResultWithin (borrow c p)
unfolding borrow
borrow-Within c p v = ground (arith, v)

handle_idle-Within :
    (a : Answers) (again : ConnectionPool → GetResult) (c : Handle) (p : ConnectionPool)
    → ((q : ConnectionPool) → Within q → ResultWithin (again q))
    → Within p
    → ResultWithin (handle_idle a again c p)
unfolding handle_idle handle_pooled
handle_idle-Within a again (foreign none) p h v = v
handle_idle-Within a again (foreign (some n)) p h v = h _ v
handle_idle-Within a again (pooled c) p h v =
    let next : ResultWithin (again (update_stats drop_idle_stats (discard c p))) =
      h _ (ground (arith, v)) in
    if-intro ResultWithin (expired a.now p.opts c) (λ _. next)
      λ _.
        if-intro ResultWithin (p.opts.test_on_borrow && not (is_alive a.conn_alive p.opts c))
          (λ _. next) λ _. borrow-Within c p v

create_or_wait-Within :
    (wait : ConnectionPool → GetResult) (a : Answers) (p : ConnectionPool)
    → ((q : ConnectionPool) → Within q → ResultWithin (wait q))
    → Alone a.dial
    → Within p
    → ResultWithin (create_or_wait wait a p)
unfolding create_or_wait
create_or_wait-Within wait a p h k v =
    if-intro ResultWithin (below_limit p) (λ b. create-Within a.dial p k b v)
      λ _.
        if-intro ResultWithin
          (ltb 0 p.opts.max_waiters && reaches p.opts.max_waiters p.stats.waiters)
          {x = failed too_many_waiters p} (λ _. v)
          λ _. leave_wait-Within (wait (enter_wait p)) (h (enter_wait p) v)

-- What is taken from the channel leaves the counters and the options.
abbrev TakenWithin : Option (Conn × ConnectionPool) → Type 0
TakenWithin none = Unit
TakenWithin (some (c, p)) = Within p

take_idle-Within : (p : ConnectionPool) → Within p → TakenWithin (take_idle p)
unfolding take_idle
take_idle-Within p v =
    elim p.idle
      as (λ o. TakenWithin (elim o [
        | none ↦ none
        | some l ↦ elim l [ [] ↦ none | c ∷ cs ↦ some (c, record p { idle = some cs }) ]
      ])) [
        | none ↦ tt
        | some l ↦
            elim l
              as (λ l.
                TakenWithin
                  (elim l [ [] ↦ none | c ∷ cs ↦ some (c, record p { idle = some cs }) ])) [
                    | [] ↦ tt
                    | c ∷ cs ↦ v
                  ]
      ]

select-Within :
    (o : Option (Conn × ConnectionPool)) (handle : Handle → ConnectionPool → GetResult)
    (otherwise : GetResult)
    → TakenWithin o
    → ((c : Handle) (p : ConnectionPool) → Within p → ResultWithin (handle c p))
    → ResultWithin otherwise
    → ResultWithin (select_idle o handle otherwise)
unfolding select_idle
select-Within none handle otherwise t h v = v
select-Within (some (c, p)) handle otherwise t h v = h (pooled c) p t

abbrev AgainWithin : (Answers → ConnectionPool → GetResult) → Type 0
AgainWithin again =
    (a : Answers) (p : ConnectionPool) → Alone a.dial → Within p → ResultWithin (again a p)

retry_loop-Within :
    (again : Answers → ConnectionPool → GetResult) (n : ℕ) (rs : List Retry) (p : ConnectionPool)
    → AgainWithin again
    → RetriesAlone rs
    → Within p
    → ResultWithin (retry_loop again n rs p)
unfolding retry_loop
retry_loop-Within again zero rs p h k v = v
retry_loop-Within again (suc n) [] p h k v = v
retry_loop-Within again (suc n) (r ∷ rs) p h (k, (kd, ks)) v =
    let q = r.others p in
    let w : Within q = k p v in
    if-intro ResultWithin q.closed {x = failed pool_closed q} (λ _. w)
      λ _.
        if-intro ResultWithin (below_limit q) (λ b. create-Within r.answers.dial q kd b w)
          λ _.
            select-Within (take_idle q) (handle_idle r.answers (again r.answers)) _
              (take_idle-Within q w)
              (λ c p' u.
                handle_idle-Within r.answers (again r.answers) c p'
                  (λ p'' u'. h r.answers p'' kd u') u)
              (retry_loop-Within again n rs q h ks w)

give_up-Within :
    (c : Cause) (again : Answers → ConnectionPool → GetResult) (p : ConnectionPool)
    → AgainWithin again
    → CauseAlone c
    → Within p
    → ResultWithin (give_up c again p)
unfolding give_up
give_up-Within (deadline rs) again p h k v =
    if-intro ResultWithin (ltb 0 p.opts.max_retries)
      (λ _. retry_loop-Within again p.opts.max_retries rs (update_stats add_timeout p) h k v) λ _. v
give_up-Within idle_ready again p h k v = v
give_up-Within context_done again p h k v = v

woken-Within :
    (o o' : Option (List Conn)) (a : Answers) (again : Answers → ConnectionPool → GetResult)
    (later : ConnectionPool → GetResult) (q : ConnectionPool)
    → AgainWithin again
    → Alone a.dial
    → ResultWithin (later q)
    → Within q
    → ResultWithin (woken o o' a again later q)
unfolding woken receive handle_idle
woken-Within none none a again later q h k l v = l
woken-Within none (some j) a again later q h k l v = l
woken-Within (some i) none a again later q h k l v =
    if-intro ResultWithin q.idle_closed {x = panicked q} (λ _. v) λ _. l
woken-Within (some i) (some j) a again later q h k l v =
    select-Within (take_idle q) (handle_idle a (again a)) (later q) (take_idle-Within q v)
      (λ c p u. handle_idle-Within a (again a) c p (λ p' u'. h a p' k u') u) l

wake_up-Within :
    (o : Option (List Conn)) (c : Cause) (a : Answers)
    (again : Answers → ConnectionPool → GetResult) (later : ConnectionPool → GetResult)
    (q : ConnectionPool)
    → AgainWithin again
    → ResultWithin (later q)
    → CauseAlone c
    → Alone a.dial
    → Within q
    → ResultWithin (wake_up o c a again later q)
unfolding wake_up
wake_up-Within o idle_ready a again later q h l kc k v =
    woken-Within o q.idle a again later q h k l v
wake_up-Within o context_done a again later q h l kc k v =
    give_up-Within context_done again q h kc v
wake_up-Within o (deadline rs) a again later q h l kc k v =
    give_up-Within (deadline rs) again q h kc v

wait_idle-Within :
    (ws : List Wake) (p : ConnectionPool) → WakesAlone ws → Within p → ResultWithin (wait_idle ws p)
unfolding wait_idle
wait_idle-Within [] p k v = v
wait_idle-Within (w ∷ ws) p (k, (kc, (kd, ks))) v =
    let u : Within (w.others p) = k p v in
    wake_up-Within p.idle w.cause w.answers (create_or_wait (wait_idle ws)) (wait_idle ws)
      (w.others p)
      (λ a q d x.
        create_or_wait-Within (wait_idle ws) a q (λ q' x'. wait_idle-Within ws q' ks x') d x)
      (wait_idle-Within ws (w.others p) ks u) kc kd u

-- Get on a pool whose counters of connections that are out and idle are together within MaxActive, or that has no
-- such limit, keeps them within it, however it waits and retries, if what others do while it waits and sleeps does
-- so, and no other call changes the pool while it dials.
pub get-Within :
    (a : Answers) (ws : List Wake) (p : ConnectionPool)
    → Alone a.dial
    → WakesAlone ws
    → Within p
    → ResultWithin (get a ws p)
unfolding get
get-Within a ws p d k v =
    let again : (q : ConnectionPool) → Within q → ResultWithin (create_or_wait (wait_idle ws) a q) =
      λ q u. create_or_wait-Within (wait_idle ws) a q (λ q' u'. wait_idle-Within ws q' k u') d u in
    if-intro ResultWithin p.closed {x = failed pool_closed p} (λ _. v)
      λ _.
        select-Within (take_idle p) (handle_idle a (create_or_wait (wait_idle ws) a)) _
          (take_idle-Within p v)
          (λ c q u. handle_idle-Within a (create_or_wait (wait_idle ws) a) c q again u) (again p v)

put_discard-Within :
    (c : Conn) (e : Option PoolError) (p : ConnectionPool) → Within p → Within (put_discard c e p).1
unfolding put_discard
put_discard-Within c e p v = ground (arith, v)

put_open-Within :
    (o : Option (List Conn)) (c : Conn) (p : ConnectionPool) → Within p → Within (put_open o c p).1
unfolding put_open put_idle
put_open-Within none c p v = put_discard-Within c (some pool_closed) p v
put_open-Within (some l) c p v =
    if-intro (λ (x : Option PoolError × ConnectionPool). Within x.1)
      (ltb (length l) p.opts.max_idle) (λ _. ground (arith, v))
      λ _. put_discard-Within c (some pool_full) p v

-- A Put keeps the counters within the limit.
pub put-Within :
    (r : Return) (c : Conn) (erred : Bool) (p : ConnectionPool)
    → Within p
    → Within (put r (pooled c) erred p).1
unfolding put put_pooled
put-Within r c erred p v =
    let q : ConnectionPool = record p { active_conns = delete_conn c p.active_conns } in
    let d : Conn = record c { last_used = r.now; state = idle_state } in
    if-intro (λ (x : Option PoolError × ConnectionPool). Within x.1)
      (erred || (p.opts.test_on_return && not (is_alive r.conn_alive p.opts c)))
      (λ _. put_discard-Within c _ q v)
      λ _.
        if-intro (λ (x : Option PoolError × ConnectionPool). Within x.1) (not (r.reset_ok c))
          (λ _. put_discard-Within c _ q v)
          λ _.
            if-intro (λ (x : Option PoolError × ConnectionPool). Within x.1) p.closed
              (λ _. put_discard-Within d _ q v) λ _. put_open-Within p.idle d q v
