-- ===== src/Pool/Adapters/Helped.antt =====
-- pool/adapters/: what the helpers leave of the pool, and what their callers see.
use fyer_kit.Prelude.{
  ℕ, ◌<◌, ◌≡◌, refl, ap, ◌∙◌, ◌⊎◌, inl, inr, true, false, List, [], ◌∷◌, ◌++◌, Option, none, some,
  length, arith,
}
use fyer_kit.Pool.Types.{Conn, idle_state}
use fyer_kit.Pool.{
  ConnectionPool, Return, pooled, put, put_pooled, put_discard, put_open, put_idle, close_pooled,
}
use fyer_kit.Pool.Get.{got, get}
use fyer_kit.Pool.Adapters.Sql.{SqlConnection}
use fyer_kit.Pool.Adapters.Helpers.{
  Call, not_a_sql_connection, Helped, returned, panics, put_error, on_got, put_value, close_and_put,
  then_close, http_done, with_pooled_client, redis_done, execute, as_cmd, execute_cmd,
  with_sql_connection, with_connection, get_conn, put_conn, with_transaction, transaction_on,
  as_sql, TxAnswers,
}

-- Neither a value nor an error comes back.
abbrev pub Silent : {A : Type 0} → Helped A → Type 0
Silent h = (q : ConnectionPool) × (h ≡ returned none none q)

close_keeps_open :
    (r : Return) (c : Conn) (p : ConnectionPool) → (close_pooled r c p).1.closed ≡ p.closed
unfolding close_pooled put
close_keeps_open r c p = refl

-- Put of a connection with an error gives no error of its own, in an open pool.
put_erred :
    (r : Return) (c : Conn) (p : ConnectionPool)
    → p.closed ≡ false
    → (put r (pooled c) true p).0 ≡ none
unfolding put put_pooled put_discard
put_erred r c p h = rw h refl

lost :
    {A : Type 0} (r : Return) (c : Conn) (p : ConnectionPool)
    → p.closed ≡ false
    → (q : ConnectionPool)
    → ◌≡◌ {A = Helped A}
        (returned none (put_error (put r (pooled c) true p).0) q)
        (returned none none q)
lost r c p h q = ap (λ o. returned none (put_error o) q) (put_erred r c p h)

-- In an open pool, where Get gives a connection of the asserted kind and its use fails, the error is lost: WithPooledClient,
-- Execute, and the two forms of WithConnection return nil for it, and ExecuteCmd panics.
pub errors_swallowed :
    {A : Type 0} (u : Call) (p q : ConnectionPool) (c : Conn) (e : ℕ)
    → get u.answers u.wakes p ≡ got c q
    → u.kind_ok c ≡ true
    → (u.others q).closed ≡ false
    → Silent (with_pooled_client {A = A} u (λ n. inr e) p)
      × Silent (execute {A = A} u (λ n. inr e) p)
      × ((k : ConnectionPool) × (execute_cmd {A = A} u (λ n. inr e) p ≡ panics k))
      × Silent (with_connection u (λ n. some e) p)
      × Silent (with_sql_connection {A = A} u (λ n. (none, some e)) p)
unfolding put_value with_pooled_client execute execute_cmd with_connection with_sql_connection
    on_got http_done redis_done close_and_put then_close
errors_swallowed u p q c e g k h =
    let after = u.others q in
    let shut = (close_pooled u.second c after).1 in
    let last = (close_pooled u.second c (put u.first (pooled c) true after).1).1 in
    (
      (
        (put u.first (pooled c) true shut).1,
        rw (g, k)
            (lost u.first c shut (close_keeps_open u.second c after ∙ h)
              (put u.first (pooled c) true shut).1),
      ),
      (last, rw (g, k) (lost u.first c after h last)),
      (last, rw (g, k) (ap as_cmd (lost u.first c after h last))),
      (last, rw (g, k) (lost u.first c after h last)),
      (last, rw (g, k) (lost u.first c after h last)),
    )

put_back_healthy :
    (r : Return) (c : Conn) (p : ConnectionPool) (l : List Conn)
    → p.closed ≡ false
    → p.idle ≡ some l
    → length l < p.opts.max_idle
    → p.opts.test_on_return ≡ false
    → r.reset_ok c ≡ true
    → let (e, q) = put r (pooled c) false p in
      (e ≡ none)
      × (q.idle ≡ some (l ++ record c { last_used = r.now; state = idle_state } ∷ []))
      × (q.closed_raw ≡ p.closed_raw)
unfolding put put_pooled put_open put_idle
put_back_healthy r c p l h i room t ok = ground (arith, h, i, room, t, ok)

-- In an open pool without TestOnReturn whose channel has room, where Get gives a connection of the asserted kind, its use
-- succeeds and it can be reset, Execute returns the value, leaves the connection last in the idle channel, and has
-- closed the connection under it.
pub execute_closes_idle :
    {A : Type 0} (u : Call) (run : ℕ → A ⊎ ℕ) (v : A) (p q : ConnectionPool) (c : Conn)
    (l : List Conn)
    → get u.answers u.wakes p ≡ got c q
    → u.kind_ok c ≡ true
    → run c.id ≡ inl v
    → let after = u.others q in
      after.closed ≡ false
      → after.idle ≡ some l
      → length l < after.opts.max_idle
      → after.opts.test_on_return ≡ false
      → u.first.reset_ok c ≡ true
      → (k : ConnectionPool) × (execute u run p ≡ returned (some v) none k)
        × (k.idle ≡ some (l ++ record c { last_used = u.first.now; state = idle_state } ∷ []))
        × (k.closed_raw ≡ c.id ∷ after.closed_raw)
unfolding execute on_got redis_done put_value then_close
execute_closes_idle u run v p q c l g kind e h i room t ok =
    let after = u.others q in
    let (none_said, idle, raw) = put_back_healthy u.first c after l h i room t ok in
    let last = (close_pooled u.second c (put u.first (pooled c) false after).1).1 in
    (
      last,
      rw (g, kind, e) (ap (λ o. returned (some v) (put_error o) last) none_said),
      unfold close_pooled put in idle,
      unfold close_pooled put in ap (◌∷◌ c.id) raw,
    )

-- On a connection that a pool gives, WithTransaction always fails, since it is not an SQLConnection; and GetConn, with the
-- Put of GRPCClientPool behind it, succeeds. Both leave the connection among those that are out, and the counters as they were.
pub connections_kept_out :
    (u : Call) (a : TxAnswers) (sql_at : ℕ → SqlConnection) (e : Option ℕ) (p q : ConnectionPool)
    (c : Conn)
    → get u.answers u.wakes p ≡ got c q
    → u.kind_ok c ≡ true
    → ((k : ConnectionPool) × (with_transaction u a sql_at p
          ≡ returned none (some not_a_sql_connection) k)
        × (k.active_conns ≡ q.active_conns)
        × (k.stats ≡ q.stats))
      × (get_conn u p ≡ returned (some c.id) none q)
      × (put_conn c.id e q ≡ (none, q))
unfolding with_transaction on_got then_close transaction_on as_sql get_conn put_conn
connections_kept_out u a sql_at e p q c g kind = (
  (
    (close_pooled u.second c q).1,
    rw g refl,
    unfold close_pooled put in refl,
    unfold close_pooled put in refl,
  ),
  rw (g, kind) refl,
  refl,
)
