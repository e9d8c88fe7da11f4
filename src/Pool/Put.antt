-- ===== src/Pool/Put.antt =====
-- pool/pool.go: Put and NewPool keep the books; what goes wrong with a Put of the wrong thing.
use fyer_kit.Prelude.{
  ℕ, zero, suc, ◌+◌, ◌<◌, ◌≡◌, refl, sym, ap, subst, ◌∙◌, Bool, true, false, not, ◌&&◌, ◌||◌, List,
  [], ◌∷◌, ◌++◌, Option, none, some, arith, ltb, if-intro, length, length-append, ltb→lt,
}
use fyer_kit.Pool.Types.{
  up, down, idle_state, Conn, PoolOptions, PoolError, pool_closed, pool_full, invalid_connection,
  new_stats, default_options,
}
use fyer_kit.Pool.{
  ConnectionPool, delete_conn, is_alive, Return, pooled, put_discard, put_idle, put_open,
  put_pooled, put, close_pooled,
}
use fyer_kit.Pool.Get.{
  Dial, GetResult, got, failed, waiting, panicked, create_connection, below_limit, put_back,
  preload, preload_all, apply_options, empty_pool, new_pool,
}
use fyer_kit.Pool.Books.{Books, IsValid, occurs, discard-Books, return-Books}
use fyer_kit.Pool.Lend.{Keeps, Lent, create_connection-Lent}

-- The connection is out: the books are in order with it counted, and `p` is the pool without it.
abbrev Owed : Conn → ConnectionPool → List Conn → Type 0
Owed c p active =
    (occurs c.id active ≡ 1)
    × (p.active_conns ≡ delete_conn c active)
    × Books p.opts.max_idle p.idle active p.next_id p.stats.active p.stats.idle p.stats.total

put_discard-IsValid :
    (c d : Conn) (e : Option PoolError) (p : ConnectionPool) (active : List Conn)
    → Owed c p active
    → IsValid (put_discard d e p).1
unfolding put_discard
put_discard-IsValid c d e p active (out, same, b) =
    subst
      (λ l.
        Books p.opts.max_idle p.idle l p.next_id (down p.stats.active) p.stats.idle
          (down p.stats.total))
      (sym same) (discard-Books _ _ active p.stats.active p.stats.idle p.stats.total p.idle c out b)

put_open-IsValid :
    (o : Option (List Conn)) (c d : Conn) (p : ConnectionPool) (active : List Conn)
    → p.idle ≡ o
    → d.id ≡ c.id
    → Owed c p active
    → IsValid (put_open o d p).1
unfolding put_open put_idle
put_open-IsValid none c d p active i e owed =
    put_discard-IsValid c d (some pool_closed) p active owed
put_open-IsValid (some l) c d p active i e (out, same, b) =
    if-intro (λ (x : Option PoolError × ConnectionPool). IsValid x.1)
      (ltb (length l) p.opts.max_idle)
      (λ room.
        subst
          (λ k.
            Books p.opts.max_idle (some (l ++ d ∷ [])) k p.next_id (down p.stats.active)
              (up p.stats.idle) p.stats.total)
          (sym same)
          (return-Books _ _ active p.stats.active p.stats.idle p.stats.total l c d e out
            (ltb→lt (length l) p.opts.max_idle room)
            (subst
              (λ k.
                Books p.opts.max_idle k active p.next_id p.stats.active p.stats.idle p.stats.total)
              i b)))
      λ _. put_discard-IsValid c d (some pool_full) p active (out, same, b)

-- From a pool whose books are in order, Put of a connection that is out, once, keeps them in order, whether it
-- goes back to the channel or is closed because the caller reports an error, it is broken, it cannot be reset, the
-- pool is closed or the channel is full.
pub put-IsValid :
    (r : Return) (c : Conn) (erred : Bool) (p : ConnectionPool)
    → IsValid p
    → occurs c.id p.active_conns ≡ 1
    → IsValid (put r (pooled c) erred p).1
unfolding put put_pooled
put-IsValid r c erred p v out =
    let q : ConnectionPool = record p { active_conns = delete_conn c p.active_conns } in
    let d : Conn = record c { last_used = r.now; state = idle_state } in
    let owed : Owed c q p.active_conns = (out, refl, v) in
    let closes : (k : Conn) (e : Option PoolError) → IsValid (put_discard k e q).1 =
      λ k e. put_discard-IsValid c k e q p.active_conns owed in
    if-intro (λ (x : Option PoolError × ConnectionPool). IsValid x.1)
      (erred || (p.opts.test_on_return && not (is_alive r.conn_alive p.opts c))) (λ _. closes c _)
      λ _.
        if-intro (λ (x : Option PoolError × ConnectionPool). IsValid x.1) (not (r.reset_ok c))
          (λ _. closes c _)
          λ _.
            if-intro (λ (x : Option PoolError × ConnectionPool). IsValid x.1) p.closed
              (λ _. closes d _) λ _. put_open-IsValid p.idle c d q p.active_conns refl refl owed

put_back-IsValid : (r : Return) (g : GetResult) → Lent g → IsValid (put_back r g)
unfolding put_back
put_back-IsValid r (got c p) (v, out) = unfold put in put-IsValid r c false p v out
put_back-IsValid r (failed e p) v = v
put_back-IsValid r (waiting p) v = v
put_back-IsValid r (panicked p) v = v

preload_all-IsValid :
    (rounds i : ℕ) (answers : ℕ → Dial × Return) (p : ConnectionPool)
    → ((j : ℕ) → Keeps (answers j).0.others)
    → IsValid p
    → IsValid (preload_all rounds i answers p)
unfolding preload_all preload
preload_all-IsValid zero i answers p k v = v
preload_all-IsValid (suc rounds) i answers p k v = preload_all-IsValid rounds (i + 1) answers _ k (
    put_back-IsValid (answers i).1 (create_connection (answers i).0 p)
      (create_connection-Lent (answers i).0 p (k i) v))

-- A new pool's books are in order, whatever its options and however many of its initial connections fail, if what
-- others do while it dials keeps them in order.
pub new_pool-IsValid :
    (options : List (PoolOptions → PoolOptions)) (answers : ℕ → Dial × Return)
    → ((j : ℕ) → Keeps (answers j).0.others)
    → IsValid (new_pool options answers)
unfolding new_pool empty_pool new_stats
new_pool-IsValid options answers k =
    preload_all-IsValid (apply_options options default_options).initial_size 0 answers _ k (record {
      counts_active = refl;
      counted = (refl, refl);
      fits = omega arith;
      once = λ i. unfold occurs in omega arith;
      old = λ i h. unfold occurs in omega arith;
    })

-- Close of a connection that an open pool lent closes the connection under it and returns
-- ErrInvalidConnection; it stays among those that are out, and the counters and the limit count it on.
pub close_pooled_leaks :
    (r : Return) (c : Conn) (p : ConnectionPool)
    → p.closed ≡ false
    → let (e, q) = close_pooled r c p in
      (e ≡ some invalid_connection)
      × (q.closed_raw ≡ c.id ∷ p.closed_raw)
      × (q.active_conns ≡ p.active_conns)
      × (q.stats ≡ p.stats)
      × (below_limit q ≡ below_limit p)
unfolding close_pooled put below_limit
close_pooled_leaks r c p h = (rw h refl, refl, refl, refl, refl)

put_healthy :
    (r : Return) (c : Conn) (p : ConnectionPool) (l : List Conn)
    → p.closed ≡ false
    → p.idle ≡ some l
    → length l < p.opts.max_idle
    → p.opts.test_on_return ≡ false
    → r.reset_ok c ≡ true
    → let q = (put r (pooled c) false p).1 in
      (q.idle ≡ some (l ++ record c { last_used = r.now; state = idle_state } ∷ []))
      × (q.closed ≡ p.closed)
      × (q.opts ≡ p.opts)
unfolding put put_pooled put_open put_idle
put_healthy r c p l h i room t ok = ground (arith, h, i, room, t, ok)

-- In an open pool without TestOnReturn whose channel has room for two, a connection that can be reset and is put
-- back twice, without an error of its own, stands in the channel twice.
pub double_put :
    (r : Return) (c : Conn) (p : ConnectionPool) (l : List Conn)
    → p.closed ≡ false
    → p.idle ≡ some l
    → suc (length l) < p.opts.max_idle
    → p.opts.test_on_return ≡ false
    → r.reset_ok c ≡ true
    → let d : Conn = record c { last_used = r.now; state = idle_state } in
      (put r (pooled c) false (put r (pooled c) false p).1).1.idle ≡ some ((l ++ d ∷ []) ++ d ∷ [])
double_put r c p l h i room t ok =
    let (j, k, o) = put_healthy r c p l h i (omega arith) t ok in
    (put_healthy r c (put r (pooled c) false p).1
      (l ++ record c { last_used = r.now; state = idle_state } ∷ []) (k ∙ h) j
      (omega (
        arith,
        room,
        ap (λ (x : PoolOptions). x.max_idle) o,
        length-append l (record c { last_used = r.now; state = idle_state } ∷ []),
      ))
      (ap (λ o. o.test_on_return) o ∙ t) ok).0
