-- ===== src/Pool/Lend.antt =====
-- pool/pool.go: Get keeps the books, whatever branch it takes and whatever others do while it waits, and lends a
-- connection that is at no other place.
use fyer_kit.Prelude.{
  ℕ, zero, suc, ◌≡◌, refl, sym, subst, ◌⊎◌, inl, inr, not, ◌&&◌, List, [], ◌∷◌, Option, none, some,
  arith, ltb, if-intro, Option-cases,
}
use fyer_kit.Pool.Types.{up, down, in_use, reaches, too_many_waiters, Conn}
use fyer_kit.Pool.{
  ConnectionPool, update_stats, discard, drop_idle_stats, take_idle, expired, is_alive,
}
use fyer_kit.Pool.Get.{
  Dialed, dial_refused, callback_refused, connected, Dial, Answers, Retry, Cause, idle_ready,
  context_done, deadline, Wake, GetResult, got, failed, waiting, panicked, woken, enter_wait,
  leave_wait, finish_dial, create_connection, below_limit, borrow, handle_idle, handle_pooled,
  create_or_wait, retry_loop, give_up, select_idle, receive, wake_up, wait_idle, get, add_timeout,
}
use fyer_kit.Pool.Books.{
  Books, IsValid, occurs, expire-Books, borrow-Books, create-Books, skip-Books,
}

-- What others do keeps the books.
abbrev pub Keeps : (ConnectionPool → ConnectionPool) → Type 0
Keeps f = (p : ConnectionPool) → IsValid p → IsValid (f p)

abbrev pub RetriesKeep : List Retry → Type 0
RetriesKeep [] = Unit
RetriesKeep (r ∷ rs) = Keeps r.others × Keeps r.answers.dial.others × RetriesKeep rs

abbrev pub CauseKeeps : Cause → Type 0
CauseKeeps idle_ready = Unit
CauseKeeps context_done = Unit
CauseKeeps (deadline rs) = RetriesKeep rs

abbrev pub WakesKeep : List Wake → Type 0
WakesKeep [] = Unit
WakesKeep (w ∷ ws) =
    Keeps w.others × CauseKeeps w.cause × Keeps w.answers.dial.others × WakesKeep ws

-- The books are in order, and a connection that a Get returns is out, once.
abbrev pub Lent : GetResult → Type 0
Lent (got c p) = IsValid p × (occurs c.id p.active_conns ≡ 1)
Lent (failed e p) = IsValid p
Lent (waiting p) = IsValid p
Lent (panicked p) = IsValid p

-- The connection was the first of the channel, and the rest is still there.
abbrev Taken : Conn → ConnectionPool → Type 0
Taken c p =
    (cs : List Conn) × (p.idle ≡ some cs)
    × Books p.opts.max_idle (some (c ∷ cs)) p.active_conns p.next_id p.stats.active p.stats.idle
        p.stats.total

take_idle-cases :
    (p : ConnectionPool)
    → IsValid p
    → (take_idle p ≡ none)
      ⊎ ((c : Conn) × (q : ConnectionPool) × (take_idle p ≡ some (c, q)) × Taken c q)
unfolding take_idle
take_idle-cases p v = elim (Option-cases p.idle) [
  | inl e ↦ inl (rw e refl)
  | inr ([], e) ↦ inl (rw e refl)
  | inr (c ∷ cs, e) ↦ inr (
    c,
    record p { idle = some cs },
    rw e refl,
    (
      cs,
      refl,
      subst
          (λ o.
            Books p.opts.max_idle o p.active_conns p.next_id p.stats.active p.stats.idle
              p.stats.total)
          e v,
    ),
  )
]

leave_wait-Lent : (r : GetResult) → Lent r → Lent (leave_wait r)
unfolding leave_wait
leave_wait-Lent (got c p) v = v
leave_wait-Lent (failed e p) v = v
leave_wait-Lent (waiting p) v = v
leave_wait-Lent (panicked p) v = v

finish_dial-Lent :
    (d : Dialed) (now : ℕ) (p : ConnectionPool) → IsValid p → Lent (finish_dial d now p)
unfolding finish_dial
finish_dial-Lent dial_refused now p v = v
finish_dial-Lent callback_refused now p v =
    skip-Books _ _ p.active_conns p.stats.active p.stats.idle p.stats.total p.idle v
finish_dial-Lent connected now p v = (
  create-Books _ _ p.active_conns p.stats.active p.stats.idle p.stats.total p.idle _ refl v,
  unfold occurs in ground (arith, v.old p.next_id),
)

pub create_connection-Lent :
    (d : Dial) (p : ConnectionPool) → Keeps d.others → IsValid p → Lent (create_connection d p)
unfolding create_connection
create_connection-Lent d p k v = finish_dial-Lent d.dialed d.now (d.others p) (k p v)

borrow-Lent : (c : Conn) (p : ConnectionPool) → Taken c p → Lent (borrow c p)
unfolding borrow
borrow-Lent c p (cs, e, b) = (
  subst
      (λ o.
        Books p.opts.max_idle o (record c { state = in_use } ∷ p.active_conns) p.next_id
          (up p.stats.active) (down p.stats.idle) p.stats.total)
      (sym e)
      (borrow-Books _ _ p.active_conns p.stats.active p.stats.idle p.stats.total c _ cs refl b),
  unfold occurs in ground (arith, b.once c.id),
)

expired-IsValid :
    (c : Conn) (p : ConnectionPool)
    → Taken c p
    → IsValid (update_stats drop_idle_stats (discard c p))
expired-IsValid c p (cs, e, b) =
    subst
      (λ o.
        Books p.opts.max_idle o p.active_conns p.next_id p.stats.active (down p.stats.idle)
          (down p.stats.total))
      (sym e) (expire-Books _ _ p.active_conns p.stats.active p.stats.idle p.stats.total c cs b)

handle_pooled-Lent :
    (a : Answers) (again : ConnectionPool → GetResult) (c : Conn) (p : ConnectionPool)
    → ((q : ConnectionPool) → IsValid q → Lent (again q))
    → Taken c p
    → Lent (handle_pooled a again c p)
unfolding handle_pooled
handle_pooled-Lent a again c p h t =
    let next = h (update_stats drop_idle_stats (discard c p)) (expired-IsValid c p t) in
    if-intro Lent (expired a.now p.opts c) (λ _. next)
      λ _.
        if-intro Lent (p.opts.test_on_borrow && not (is_alive a.conn_alive p.opts c)) (λ _. next)
          λ _. borrow-Lent c p t

create_or_wait-Lent :
    (wait : ConnectionPool → GetResult) (a : Answers) (p : ConnectionPool)
    → ((q : ConnectionPool) → IsValid q → Lent (wait q))
    → Keeps a.dial.others
    → IsValid p
    → Lent (create_or_wait wait a p)
unfolding create_or_wait
create_or_wait-Lent wait a p h k v =
    if-intro Lent (below_limit p) (λ _. create_connection-Lent a.dial p k v)
      λ _.
        if-intro Lent (ltb 0 p.opts.max_waiters && reaches p.opts.max_waiters p.stats.waiters)
          {x = failed too_many_waiters p} (λ _. v)
          λ _. leave_wait-Lent (wait (enter_wait p)) (h (enter_wait p) v)

receive-none :
    (a : Answers) (again : Answers → ConnectionPool → GetResult)
    (later : ConnectionPool → GetResult) (q : ConnectionPool)
    → take_idle q ≡ none
    → receive a again later q ≡ later q
unfolding receive select_idle
receive-none a again later q e = rw e refl

receive-some :
    (a : Answers) (again : Answers → ConnectionPool → GetResult)
    (later : ConnectionPool → GetResult) (q : ConnectionPool) (c : Conn) (p : ConnectionPool)
    → take_idle q ≡ some (c, p)
    → receive a again later q ≡ handle_pooled a (again a) c p
unfolding receive select_idle handle_idle
receive-some a again later q c p e = rw e refl

-- A receive, where there may be nothing to receive.
receive-Lent :
    (a : Answers) (again : Answers → ConnectionPool → GetResult)
    (later : ConnectionPool → GetResult) (q : ConnectionPool)
    → ((p : ConnectionPool) → IsValid p → Lent (again a p))
    → Lent (later q)
    → IsValid q
    → Lent (receive a again later q)
receive-Lent a again later q h l v = elim (take_idle-cases q v) [
  | inl e ↦ rw (receive-none a again later q e) l
  | inr (c, p, e, t) ↦
      rw (receive-some a again later q c p e) (handle_pooled-Lent a (again a) c p h t)
]

-- What a Get calls again keeps the books, if its dial does.
abbrev Again : (Answers → ConnectionPool → GetResult) → Type 0
Again again =
    (a : Answers) (p : ConnectionPool) → Keeps a.dial.others → IsValid p → Lent (again a p)

retry_loop-Lent :
    (again : Answers → ConnectionPool → GetResult) (n : ℕ) (rs : List Retry) (p : ConnectionPool)
    → Again again
    → RetriesKeep rs
    → IsValid p
    → Lent (retry_loop again n rs p)
unfolding retry_loop receive
retry_loop-Lent again zero rs p h k v = v
retry_loop-Lent again (suc n) [] p h k v = v
retry_loop-Lent again (suc n) (r ∷ rs) p h (k, kd, ks) v =
    let q = r.others p in
    let w : IsValid q = k p v in
    if-intro Lent q.closed (λ _. w)
      λ _.
        if-intro Lent (below_limit q) (λ _. create_connection-Lent r.answers.dial q kd w)
          λ _.
            receive-Lent r.answers again (λ q'. retry_loop again n rs q') q
              (λ p' v'. h r.answers p' kd v') (retry_loop-Lent again n rs q h ks w) w

give_up-Lent :
    (c : Cause) (again : Answers → ConnectionPool → GetResult) (p : ConnectionPool)
    → Again again
    → CauseKeeps c
    → IsValid p
    → Lent (give_up c again p)
unfolding give_up
give_up-Lent (deadline rs) again p h k v =
    if-intro Lent (ltb 0 p.opts.max_retries)
      (λ _. retry_loop-Lent again p.opts.max_retries rs (update_stats add_timeout p) h k v) λ _. v
give_up-Lent idle_ready again p h k v = v
give_up-Lent context_done again p h k v = v

woken-Lent :
    (o o' : Option (List Conn)) (a : Answers) (again : Answers → ConnectionPool → GetResult)
    (later : ConnectionPool → GetResult) (q : ConnectionPool)
    → ((p : ConnectionPool) → IsValid p → Lent (again a p))
    → Lent (later q)
    → IsValid q
    → Lent (woken o o' a again later q)
unfolding woken handle_idle
woken-Lent none none a again later q h l v = l
woken-Lent none (some k) a again later q h l v = l
woken-Lent (some j) none a again later q h l v =
    if-intro Lent q.idle_closed {x = panicked q} (λ _. v) λ _. l
woken-Lent (some j) (some k) a again later q h l v = receive-Lent a again later q h l v

wake_up-Lent :
    (o : Option (List Conn)) (c : Cause) (a : Answers)
    (again : Answers → ConnectionPool → GetResult) (later : ConnectionPool → GetResult)
    (q : ConnectionPool)
    → Again again
    → ((p : ConnectionPool) → IsValid p → Lent (later p))
    → CauseKeeps c
    → Keeps a.dial.others
    → IsValid q
    → Lent (wake_up o c a again later q)
unfolding wake_up
wake_up-Lent o idle_ready a again later q h l kc kd v =
    woken-Lent o q.idle a again later q (λ p w. h a p kd w) (l q v) v
wake_up-Lent o context_done a again later q h l kc kd v = give_up-Lent context_done again q h kc v
wake_up-Lent o (deadline rs) a again later q h l kc kd v = give_up-Lent (deadline rs) again q h kc v

wait_idle-Lent :
    (ws : List Wake) (p : ConnectionPool) → WakesKeep ws → IsValid p → Lent (wait_idle ws p)
unfolding wait_idle
wait_idle-Lent [] p k v = v
wait_idle-Lent (w ∷ ws) p (k, kc, kd, ks) v =
    wake_up-Lent p.idle w.cause w.answers (create_or_wait (wait_idle ws)) (wait_idle ws)
      (w.others p)
      (λ a q d u. create_or_wait-Lent (wait_idle ws) a q (λ q' u'. wait_idle-Lent ws q' ks u') d u)
      (λ q u. wait_idle-Lent ws q ks u) kc kd (k p v)

-- From a pool whose books are in order, and if what others do meanwhile keeps them in order, Get keeps them in
-- order, whether it takes an idle connection, drops an expired or broken one, makes one, fails, panics, or waits
-- and retries; and the connection that it returns is out once and not idle.
pub get-Lent :
    (a : Answers) (ws : List Wake) (p : ConnectionPool)
    → Keeps a.dial.others
    → WakesKeep ws
    → IsValid p
    → Lent (get a ws p)
unfolding get
get-Lent a ws p d k v =
    let again : (q : ConnectionPool) → IsValid q → Lent (create_or_wait (wait_idle ws) a q) =
      λ q u. create_or_wait-Lent (wait_idle ws) a q (λ q' u'. wait_idle-Lent ws q' k u') d u in
    if-intro Lent p.closed (λ _. v)
      λ _.
        unfold receive in
        receive-Lent a (create_or_wait (wait_idle ws)) (create_or_wait (wait_idle ws) a) p again
          (again p v) v
