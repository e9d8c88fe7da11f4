-- ===== src/Pool/Adapters/Kept.antt =====
-- pool/adapters/: the helpers keep the books of the pool.
use fyer_kit.Prelude.{ℕ, ◌≡◌, ◌⊎◌, inl, inr, Bool, true, false, Option, none, some, if-intro}
use fyer_kit.Pool.Types.{Conn, PoolError}
use fyer_kit.Pool.{ConnectionPool, Return, pooled, put, close_pooled}
use fyer_kit.Pool.Get.{GetResult, got, failed, waiting, panicked, get}
use fyer_kit.Pool.Books.{IsValid, occurs}
use fyer_kit.Pool.Lend.{Lent, Keeps, WakesKeep, get-Lent}
use fyer_kit.Pool.Put.{put-IsValid}
use fyer_kit.Pool.Adapters.Sql.{is_set, SqlConnection}
use fyer_kit.Pool.Adapters.Helpers.{
  Call, HelpError, Helped, returned, blocked, panics, on_got, put_value, close_and_put, then_close,
  http_done, with_pooled_client, redis_done, execute, with_sql_connection, with_connection,
  get_conn, with_transaction, transaction_on, as_sql, TxAnswers,
}

abbrev pub HelpedValid : {A : Type 0} → Helped A → Type 0
HelpedValid (returned v e p) = IsValid p
HelpedValid (blocked p) = IsValid p
HelpedValid (panics p) = IsValid p

-- The books are in order, and the connection is out.
abbrev pub Holding : Conn → ConnectionPool → Type 0
Holding c p = IsValid p × (occurs c.id p.active_conns ≡ 1)

-- What others do keeps the books, and while the connection is used, keeps it out.
pub record Careful (u : Call) : Type 0 where
  pub dialling : Keeps u.answers.dial.others
  pub waking : WakesKeep u.wakes
  pub using : (c : Conn) (p : ConnectionPool) → Holding c p → Holding c (u.others p)

close-Holding :
    (r : Return) (c d : Conn) (p : ConnectionPool) → Holding d p → Holding d (close_pooled r c p).1
unfolding close_pooled put
close-Holding r c d p (v, out) = (
  record {
    counts_active = v.counts_active;
    counted = v.counted;
    fits = v.fits;
    once = v.once;
    old = v.old;
  },
  out,
)

close-IsValid :
    (r : Return) (c : Conn) (p : ConnectionPool) → IsValid p → IsValid (close_pooled r c p).1
unfolding close_pooled put
close-IsValid r c p v = record {
  counts_active = v.counts_active;
  counted = v.counted;
  fits = v.fits;
  once = v.once;
  old = v.old;
}

module _ {A : Type 0} where
  on_got-HelpedValid :
      (g : GetResult) (wrap : PoolError → HelpError) (use_it : Conn → ConnectionPool → Helped A)
      → Lent g
      → ((c : Conn) (p : ConnectionPool) → Holding c p → HelpedValid (use_it c p))
      → HelpedValid (on_got g wrap use_it)
  unfolding on_got
  on_got-HelpedValid (got c p) wrap use_it v h = h c p v
  on_got-HelpedValid (failed e p) wrap use_it v h = v
  on_got-HelpedValid (waiting p) wrap use_it v h = v
  on_got-HelpedValid (panicked p) wrap use_it v h = v

  put_value-HelpedValid :
      (u : Call) (x : Option A) (erred : Bool) (c : Conn) (p : ConnectionPool)
      → Holding c p
      → HelpedValid (put_value u x erred c p)
  unfolding put_value
  put_value-HelpedValid u x erred c p (v, out) = put-IsValid u.first c erred p v out

  then_close-HelpedValid :
      (u : Call) (c : Conn) (h : Helped A) → HelpedValid h → HelpedValid (then_close u c h)
  unfolding then_close
  then_close-HelpedValid u c (returned x e p) v = close-IsValid u.second c p v
  then_close-HelpedValid u c (blocked p) v = v
  then_close-HelpedValid u c (panics p) v = v

close_and_put-HelpedValid :
    (A : Type 0) (u : Call) (erred : Bool) (c : Conn) (p : ConnectionPool)
    → Holding c p
    → HelpedValid (close_and_put {A = A} u erred c p)
unfolding close_and_put
close_and_put-HelpedValid A u erred c p h =
    put_value-HelpedValid {A = A} u none erred c (close_pooled u.second c p).1
      (close-Holding u.second c c p h)

module _ {A : Type 0} where
  http_done-HelpedValid :
      (u : Call) (o : A ⊎ ℕ) (c : Conn) (p : ConnectionPool)
      → Holding c p
      → HelpedValid (http_done u o c p)
  unfolding http_done
  http_done-HelpedValid u (inl x) c p h = put_value-HelpedValid u (some x) false c p h
  http_done-HelpedValid u (inr e) c p h = close_and_put-HelpedValid A u true c p h

  redis_done-HelpedValid :
      (u : Call) (o : A ⊎ ℕ) (c : Conn) (p : ConnectionPool)
      → Holding c p
      → HelpedValid (redis_done u o c p)
  unfolding redis_done
  redis_done-HelpedValid u (inl x) c p h = put_value-HelpedValid u (some x) false c p h
  redis_done-HelpedValid u (inr e) c p h = put_value-HelpedValid u none true c p h

module _ (u : Call) (p : ConnectionPool) (v : IsValid p) (careful : Careful u) where
  lent : Lent (get u.answers u.wakes p)
  lent = get-Lent u.answers u.wakes p careful.dialling careful.waking v

  http-HelpedValid : {A : Type 0} (send : ℕ → A ⊎ ℕ) → HelpedValid (with_pooled_client u send p)
  unfolding with_pooled_client
  http-HelpedValid {A} send = on_got-HelpedValid _ _ _ lent λ c q h.
      if-intro HelpedValid (u.kind_ok c)
        (λ _. http_done-HelpedValid u (send c.id) c (u.others q) (careful.using c q h))
        λ _. close_and_put-HelpedValid A u false c q h

  redis-HelpedValid : {A : Type 0} (run : ℕ → A ⊎ ℕ) → HelpedValid (execute u run p)
  unfolding execute
  redis-HelpedValid run = on_got-HelpedValid _ _ _ lent λ c q h. then_close-HelpedValid u c _ (
      if-intro HelpedValid (u.kind_ok c)
        (λ _. redis_done-HelpedValid u (run c.id) c (u.others q) (careful.using c q h))
        λ _. put_value-HelpedValid u none false c q h)

  sql-HelpedValid :
      {A : Type 0} (run : ℕ → Option A × Option ℕ) → HelpedValid (with_sql_connection u run p)
  unfolding with_sql_connection
  sql-HelpedValid run = on_got-HelpedValid _ _ _ lent λ c q h. then_close-HelpedValid u c _ (
      if-intro HelpedValid (u.kind_ok c)
        (λ _.
          put_value-HelpedValid u (run c.id).0 (is_set (run c.id).1) c (u.others q)
            (careful.using c q h))
        λ _. h.0)

  grpc-HelpedValid : (run : ℕ → Option ℕ) → HelpedValid (with_connection u run p)
  unfolding with_connection
  grpc-HelpedValid run = on_got-HelpedValid _ _ _ lent λ c q h. then_close-HelpedValid u c _ (
      if-intro HelpedValid (u.kind_ok c)
        (λ _. put_value-HelpedValid u none (is_set (run c.id)) c (u.others q) (careful.using c q h))
        λ _. put_value-HelpedValid u none false c q h)

  get_conn-HelpedValid : HelpedValid (get_conn u p)
  unfolding get_conn
  get_conn-HelpedValid = on_got-HelpedValid _ _ _ lent λ c q h.
      if-intro HelpedValid (u.kind_ok c) (λ _. h.0) λ _. close_and_put-HelpedValid ℕ u false c q h

  transaction-HelpedValid :
      (a : TxAnswers) (sql_at : ℕ → SqlConnection) → HelpedValid (with_transaction u a sql_at p)
  unfolding with_transaction transaction_on as_sql
  transaction-HelpedValid a sql_at = on_got-HelpedValid _ _ _ lent λ c q h.
      then_close-HelpedValid u c (transaction_on u a (pooled c) (as_sql sql_at (pooled c)) q) h.0

-- From a pool whose books are in order, every helper leaves them in order, on each of its branches, if what others do keeps
-- them in order and does not put back the connection that the helper uses.
pub helpers_keep_books :
    {A : Type 0} (u : Call) (p : ConnectionPool) (use_it : ℕ → A ⊎ ℕ)
    (run : ℕ → Option A × Option ℕ) (check : ℕ → Option ℕ) (a : TxAnswers)
    (sql_at : ℕ → SqlConnection)
    → IsValid p
    → Careful u
    → HelpedValid (with_pooled_client u use_it p)
      × HelpedValid (execute u use_it p)
      × HelpedValid (with_connection u check p)
      × HelpedValid (with_sql_connection u run p)
      × HelpedValid (get_conn u p)
      × HelpedValid (with_transaction u a sql_at p)
helpers_keep_books u p use_it run check a sql_at v careful = (
  http-HelpedValid u p v careful use_it,
  redis-HelpedValid u p v careful use_it,
  grpc-HelpedValid u p v careful check,
  sql-HelpedValid u p v careful run,
  get_conn-HelpedValid u p v careful,
  transaction-HelpedValid u p v careful a sql_at,
)
