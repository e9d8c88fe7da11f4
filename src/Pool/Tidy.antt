-- ===== src/Pool/Tidy.antt =====
-- pool/pool.go: cleanIdleConnections closes the expired idle connections and no other, and Shutdown closes
-- every idle connection once.
use fyer_kit.Prelude.{
  ℕ, suc, ◌+◌, ◌<◌, ◌≡◌, refl, sym, ap, ap₂, subst, ◌∙◌, inl, inr, true, false, List, [], ◌∷◌, ◌++◌,
  Option, none, some, arith, ltb, ◌&&◌, leb, if◌then◌else◌, length, length-append, Bool-cases,
  append-nil, append_assoc,
}
use fyer_kit.Pool.Types.{Count, Conn, PoolOptions, pool_closed, reaches}
use fyer_kit.Pool.{
  ConnectionPool, update_stats, discard, drop_idle_stats, expired, discard_all, clean_step,
  clean_loop, clean_idle_connections, take_idle, drained, close_idle,
}
use fyer_kit.Pool.Get.{
  Answers, Wake, idle_ready, failed, GetResult, panicked, get, enter_wait, leave_wait, below_limit,
  select_idle, handle_idle, create_or_wait, wait_idle, wake_up, woken,
}
use fyer_kit.Pool.Books.{Books, IsValid, occurs, occurs-append, expire-Books}

-- The connections that are not expired, and those that are, where `clock i` is read for the first, `clock (i + 1)` for the
-- next, and so on.
unfoldable pub fresh : (ℕ → ℕ) → ℕ → PoolOptions → List Conn → List Conn
fresh clock i o [] = []
fresh clock i o (c ∷ cs) =
    let rest = fresh clock (i + 1) o cs in if expired (clock i) o c then rest else c ∷ rest

unfoldable pub stale : (ℕ → ℕ) → ℕ → PoolOptions → List Conn → List Conn
stale clock i o [] = []
stale clock i o (c ∷ cs) =
    let rest = stale clock (i + 1) o cs in if expired (clock i) o c then c ∷ rest else rest

-- The log after these connections are closed in order.
pub closing : List Conn → List ℕ → List ℕ
closing [] log = log
closing (c ∷ cs) log = closing cs (c.id ∷ log)

discard_all-keeps :
    (cs : List Conn) (p : ConnectionPool)
    → ((discard_all cs p).closed_raw ≡ closing cs p.closed_raw)
      × ((discard_all cs p).idle ≡ p.idle)
      × ((discard_all cs p).closed ≡ p.closed)
      × ((discard_all cs p).idle_closed ≡ p.idle_closed)
      × ((discard_all cs p).stats ≡ p.stats)
unfolding discard_all closing
discard_all-keeps [] p = (refl, refl, refl, refl, refl)
discard_all-keeps (c ∷ cs) p = discard_all-keeps cs (discard c p)

discard_all-IsValid : (cs : List Conn) (p : ConnectionPool) → IsValid p → IsValid (discard_all cs p)
unfolding discard_all
discard_all-IsValid [] p v = v
discard_all-IsValid (c ∷ cs) p v = discard_all-IsValid cs (discard c p) v

-- The last connection of the channel comes first.
rotate-Books :
    (m n : ℕ) (active : List Conn) (a i t : Count) (c : Conn) (cs : List Conn)
    → Books m (some (c ∷ cs)) active n a i t
    → Books m (some (cs ++ c ∷ [])) active n a i t
unfolding occurs
rotate-Books m n active a i t c cs b = record {
  counts_active = b.counts_active;
  counted = ground (arith, b.counted, length-append cs (c ∷ []));
  fits = ground (arith, b.fits, length-append cs (c ∷ []));
  once = λ j. ground (arith, b.once j, occurs-append j cs (c ∷ []));
  old = λ j h. ground (arith, b.old j h, occurs-append j cs (c ∷ []));
}

step_stale :
    (clock : ℕ → ℕ) (i : ℕ) (gone : List Conn) (p : ConnectionPool) (c : Conn) (cs : List Conn)
    (n : ℕ)
    → p.idle ≡ some (c ∷ cs)
    → expired (clock i) p.opts c ≡ true
    → clean_loop clock i (suc n) gone p
      ≡ clean_loop clock
          (i + 1)
          n
          (gone ++ c ∷ [])
          (update_stats drop_idle_stats (record p { idle = some cs }))
unfolding clean_loop clean_step
step_stale clock i gone p c cs n e h =
    ap
      (λ o.
        clean_loop clock (i + 1) n (clean_step (clock i) gone o p).0
          (clean_step (clock i) gone o p).1)
      e
    ∙ rw h refl

step_fresh :
    (clock : ℕ → ℕ) (i : ℕ) (gone : List Conn) (p : ConnectionPool) (c : Conn) (cs : List Conn)
    (n : ℕ)
    → p.idle ≡ some (c ∷ cs)
    → expired (clock i) p.opts c ≡ false
    → leb p.opts.max_idle (length cs) ≡ false
    → clean_loop clock i (suc n) gone p
      ≡ clean_loop clock (i + 1) n gone (record p { idle = some (cs ++ c ∷ []) })
unfolding clean_loop clean_step
step_fresh clock i gone p c cs n e h f =
    ap
      (λ o.
        clean_loop clock (i + 1) n (clean_step (clock i) gone o p).0
          (clean_step (clock i) gone o p).1)
      e
    ∙ simp (h, f) refl

-- Where a loop over the first part `xs` of the channel's list comes to.
abbrev Cleaned :
    (ℕ → ℕ)
    → ℕ
    → List Conn
    → List Conn
    → List Conn
    → ConnectionPool
    → List Conn × ConnectionPool
    → Type 0
Cleaned clock i xs ys gone p r =
    (r.0 ≡ gone ++ stale clock i p.opts xs)
    × (r.1.idle ≡ some (ys ++ fresh clock i p.opts xs))
    × IsValid r.1
    × (r.1.closed_raw ≡ p.closed_raw)
    × (r.1.opts ≡ p.opts)

clean_loop-Cleaned :
    (clock : ℕ → ℕ) (i : ℕ) (xs ys gone : List Conn) (p : ConnectionPool)
    → p.idle ≡ some (xs ++ ys)
    → IsValid p
    → Cleaned clock i xs ys gone p (clean_loop clock i (length xs) gone p)
unfolding clean_loop stale fresh
clean_loop-Cleaned clock i [] ys gone p e v =
    (sym (append-nil gone), e ∙ ap some (sym (append-nil ys)), v, refl, refl)
clean_loop-Cleaned clock i (x ∷ xs) ys gone p e v =
    let b : Books p.opts.max_idle (some (x ∷ xs ++ ys)) p.active_conns p.next_id p.stats.active
        p.stats.idle p.stats.total =
      subst
        (λ o.
          Books p.opts.max_idle o p.active_conns p.next_id p.stats.active p.stats.idle
            p.stats.total)
        e v in
    elim (Bool-cases (expired (clock i) p.opts x)) [
      | inl h ↦
          let (g, k, w, l, o) =
            clean_loop-Cleaned clock (i + 1) xs ys (gone ++ x ∷ [])
              (update_stats drop_idle_stats (record p { idle = some (xs ++ ys) })) refl
              (expire-Books _ _ p.active_conns p.stats.active p.stats.idle p.stats.total x
                (xs ++ ys) b) in
          rw (step_stale clock i gone p x (xs ++ ys) (length xs) e h, h)
            (g ∙ append_assoc gone (x ∷ []) _, k, w, l, o)
      | inr h ↦
          let (g, k, w, l, o) =
            clean_loop-Cleaned clock (i + 1) xs (ys ++ x ∷ []) gone
              (record p { idle = some ((xs ++ ys) ++ x ∷ []) })
              (ap some (append_assoc xs ys (x ∷ [])))
              (rotate-Books _ _ p.active_conns p.stats.active p.stats.idle p.stats.total x
                (xs ++ ys) b) in
          rw (step_fresh clock i gone p x (xs ++ ys) (length xs) e h (ground (arith, b.fits)), h)
            (g, k ∙ ap some (append_assoc ys (x ∷ []) _), w, l, o)
    ]

clean-at :
    (clock : ℕ → ℕ) (p : ConnectionPool) (l : List Conn)
    → p.idle ≡ some l
    → clean_idle_connections clock p ≡ (
        if leb (length l) p.opts.min_evictable_idle
        then p
        else discard_all
            (clean_loop clock 0 (length l) [] p).0
            (clean_loop clock 0 (length l) [] p).1)
unfolding clean_idle_connections
clean-at clock p l e =
    ap
      (λ o.
        if leb (length (drained o)) p.opts.min_evictable_idle
        then p
        else discard_all (clean_loop clock 0 (length (drained o)) [] p).0
            (clean_loop clock 0 (length (drained o)) [] p).1)
      e

-- Where more connections are idle than MinEvictableIdle, cleaning a pool whose books are in order leaves in the
-- channel the idle connections that are not expired, in their order, closes the others once each, and
-- keeps the books in order. Each round reads the clock anew, and `clock` gives any reading to each.
pub clean-IsValid :
    (clock : ℕ → ℕ) (p : ConnectionPool) (l : List Conn)
    → p.idle ≡ some l
    → IsValid p
    → p.opts.min_evictable_idle < length l
    → let q = clean_idle_connections clock p in
      IsValid q
      × (q.idle ≡ some (fresh clock 0 p.opts l))
      × (q.closed_raw ≡ closing (stale clock 0 p.opts l) p.closed_raw)
clean-IsValid clock p l e v more =
    let (g, k, w, r, o) =
      clean_loop-Cleaned clock 0 l [] [] p (e ∙ ap some (sym (append-nil l))) v in
    let (log, idle, _, _, _) =
      discard_all-keeps (clean_loop clock 0 (length l) [] p).0
        (clean_loop clock 0 (length l) [] p).1 in
    let small : leb (length l) p.opts.min_evictable_idle ≡ false = ground arith in
    rw (clean-at clock p l e, small) (discard_all-IsValid _ _ w, idle ∙ k, log ∙ ap₂ closing g r)

closing-pool :
    (p : ConnectionPool) (l : List Conn)
    → p.idle ≡ some l
    → close_idle p ≡ discard_all l (record p { closed = true; idle = none; idle_closed = true })
unfolding close_idle
closing-pool p l e =
    ap (λ o. discard_all (drained o) (record p { closed = true; idle = none; idle_closed = true }))
      e

get-closed :
    (a : Answers) (ws : List Wake) (q : ConnectionPool)
    → q.closed ≡ true
    → get a ws q ≡ failed pool_closed q
unfolding get
get-closed a ws q c = rw c refl

-- The part of Shutdown that closes the channel of an open pool closes its idle connections once each, in their
-- order; from then on Get fails and lends nothing; and the counters still count those connections as idle.
pub close_idle-closes :
    (p : ConnectionPool) (l : List Conn) (a : Answers) (ws : List Wake)
    → p.idle ≡ some l
    → let q = close_idle p in
      (q.closed_raw ≡ closing l p.closed_raw)
      × (q.idle ≡ none)
      × (q.idle_closed ≡ true)
      × (get a ws q ≡ failed pool_closed q)
      × (q.stats ≡ p.stats)
close_idle-closes p l a ws e =
    let (log, i, c, k, s) =
      discard_all-keeps l (record p { closed = true; idle = none; idle_closed = true }) in
    rw (closing-pool p l e) (log, i, k, get-closed a ws _ c, s)

taken_none : (p : ConnectionPool) → p.idle ≡ some [] → take_idle p ≡ none
unfolding take_idle
taken_none p i = rw i refl

get_empty :
    (a : Answers) (ws : List Wake) (p : ConnectionPool)
    → p.closed ≡ false
    → p.idle ≡ some []
    → get a ws p ≡ create_or_wait (wait_idle ws) a p
unfolding get select_idle
get_empty a ws p c i = simp (c, taken_none p i) refl

-- `maxWaiters > 0 && waiters >= maxWaiters` fails.
abbrev MayWait : ConnectionPool → Type 0
MayWait p = (ltb 0 p.opts.max_waiters && reaches p.opts.max_waiters p.stats.waiters) ≡ false

waits_at_limit :
    (wait : ConnectionPool → GetResult) (a : Answers) (p : ConnectionPool)
    → below_limit p ≡ false
    → MayWait p
    → create_or_wait wait a p ≡ leave_wait (wait (enter_wait p))
unfolding create_or_wait
waits_at_limit wait a p f n = simp (f, n) refl

woken_by_close :
    (o o' : Option (List Conn)) (l : List Conn) (a : Answers)
    (again : Answers → ConnectionPool → GetResult) (later : ConnectionPool → GetResult)
    (q : ConnectionPool)
    → o ≡ some l
    → o' ≡ none
    → q.idle_closed ≡ true
    → woken o o' a again later q ≡ panicked q
unfolding woken handle_idle
woken_by_close o o' l a again later q e e' k = rw (e, e', k) refl

-- In an open pool at its limit of connections, with none idle and room for another waiter, a Get waits. If the part of
-- Shutdown that closes the channel comes meanwhile, behind calls of others that leave the channel in place and empty, and the
-- Get is woken by it, it receives a nil connection and panics in handleIdleConnection, while a Get that begins then fails with
-- ErrPoolClosed.
pub shutdown_wakes_waiter :
    (a b : Answers) (p : ConnectionPool) (ws : List Wake) (before : ConnectionPool → ConnectionPool)
    → p.closed ≡ false
    → p.idle ≡ some []
    → below_limit p ≡ false
    → MayWait p
    → (before (enter_wait p)).idle ≡ some []
    → let q = close_idle (before (enter_wait p)) in
      let w : Wake = record {
        others = λ r. close_idle (before r);
        cause = idle_ready;
        answers = b;
      } in
      (get a (w ∷ ws) p ≡ leave_wait (panicked q)) × (get a ws q ≡ failed pool_closed q)
shutdown_wakes_waiter a b p ws before c i f n e =
    let (_, gone, shut, fails, _) = close_idle-closes (before (enter_wait p)) [] a ws e in
    (
      get_empty a _ p c i
          ∙ waits_at_limit _ a p f n
          ∙ ap leave_wait (
              unfold wait_idle wake_up in
              woken_by_close (enter_wait p).idle (close_idle (before (enter_wait p))).idle [] b _ _
                _ i gone shut),
      fails,
    )
