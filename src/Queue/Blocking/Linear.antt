-- ===== src/Queue/Blocking/Linear.antt =====
-- queue/blocking_queue.go: the loop in which Enqueue and Dequeue wait leaves the queue to the calls
-- of the other goroutines.
use fyer_kit.Prelude.{
  ℕ, zero, suc, ◌≡◌, refl, sym, ap, ◌∙◌, inl, inr, Bool, true, false, not, ◌&&◌, List, [], ◌∷◌,
  ◌++◌, arith, Bool-cases,
}
use fyer_kit.Queue.Fifo.{Fifo, Call, step, after}
use fyer_kit.Queue.Blocking.{BlockingQueue}
use fyer_kit.Queue.Blocking.Invariant.{IsValid}
use fyer_kit.Queue.Blocking.Refine.{view, call, call_refines}
use fyer_kit.Queue.Blocking.Wait.{
  Context, nil, live, cancelled, Wake, Waited, woken, gave_up, asleep, no_context, closed_twice,
  Verdict, watch, go_round, time_out, cancel, verdict, resolve, start_round, others, wait_loop,
}

module _ {ℓ} {A : Type ℓ} where
  -- The calls of the first `k` wake-ups.
  abbrev pub took : ℕ → List (Wake A) → List (Call A)
  took zero ws = []
  took (suc k) [] = []
  took (suc k) (w ∷ ws) = w.calls ++ took k ws

  after-append : (f : Fifo A) (cs ds : List (Call A)) → after f (cs ++ ds) ≡ after (after f cs) ds
  unfolding after
  after-append f [] ds = refl
  after-append f (c ∷ cs) ds = after-append (step f c).1 cs ds

module _ {ℓ} {A : Type ℓ} (z : A) where
  others_refines :
      (q : BlockingQueue A) (cs : List (Call A))
      → IsValid q
      → (view z (others z q cs) ≡ after (view z q) cs) × IsValid (others z q cs)
  unfolding others after
  others_refines q [] v = (refl, v)
  others_refines q (c ∷ cs) v =
      let (e, v') = call_refines z q c v in
      let (e', v'') = others_refines (call z q c).1 cs v' in (e' ∙ ap (λ t. after t.1 cs) e, v'')

  -- `q'` is `q` after the calls of some of the first wake-ups, and is valid.
  abbrev pub Follows : BlockingQueue A → List (Wake A) → BlockingQueue A → Type ℓ
  Follows q ws q' = (k : ℕ) × (view z q' ≡ after (view z q) (took k ws)) × IsValid q'

  Follows-now : (q : BlockingQueue A) (ws : List (Wake A)) → IsValid q → Follows q ws q
  unfolding after
  Follows-now q ws v = (0, refl, v)

  Follows-wake :
      (q : BlockingQueue A) (w : Wake A) (ws : List (Wake A)) (q' : BlockingQueue A)
      → IsValid q
      → Follows (others z q w.calls) ws q'
      → Follows q (w ∷ ws) q'
  Follows-wake q w ws q' v (k, e, v') =
      let (o, _) = others_refines q w.calls v in
      (
        suc k,
        e ∙ ap (λ f. after f (took k ws)) o ∙ sym (after-append (view z q) w.calls (took k ws)),
        v',
      )

  abbrev pub Settles :
      (BlockingQueue A → Bool) → BlockingQueue A → List (Wake A) → Waited A → Type ℓ
  Settles blocked q ws (woken q') = Follows q ws q' × ((blocked q' && not q'.closed) ≡ false)
  Settles blocked q ws (gave_up e q') = Follows q ws q'
  Settles blocked q ws (asleep q') = Follows q ws q'
  Settles blocked q ws (no_context q') = Follows q ws q'
  Settles blocked q ws (closed_twice q') = Follows q ws q'

  Settles-wake :
      (blocked : BlockingQueue A → Bool) (q : BlockingQueue A) (w : Wake A) (ws : List (Wake A))
      (r : Waited A)
      → IsValid q
      → Settles blocked (others z q w.calls) ws r
      → Settles blocked q (w ∷ ws) r
  Settles-wake blocked q w ws (woken q') v (f, e) = (Follows-wake q w ws q' v f, e)
  Settles-wake blocked q w ws (gave_up e q') v f = Follows-wake q w ws q' v f
  Settles-wake blocked q w ws (asleep q') v f = Follows-wake q w ws q' v f
  Settles-wake blocked q w ws (no_context q') v f = Follows-wake q w ws q' v f
  Settles-wake blocked q w ws (closed_twice q') v f = Follows-wake q w ws q' v f

module _ {ℓ} {A : Type ℓ} (z : A) (watched timed : Bool) (ctx : Context)
    (blocked : BlockingQueue A → Bool) (count : BlockingQueue A → BlockingQueue A)
    (keeps : (q : BlockingQueue A)
      → IsValid q
      → (view z (count q) ≡ view z q) × IsValid (count q)) where
  resolve-Settles :
      (d : Verdict) (q : BlockingQueue A) (w : Wake A) (ws : List (Wake A)) (next : Waited A)
      → IsValid q
      → Settles z blocked (others z q w.calls) ws next
      → Settles z blocked q (w ∷ ws) (resolve d count (others z q w.calls) next)
  unfolding resolve
  resolve-Settles go_round q w ws next v s = Settles-wake z blocked q w ws next v s
  resolve-Settles time_out q w ws next v s =
      let (_, v') = others_refines z q w.calls v in
      let (e, v'') = keeps (others z q w.calls) v' in
      Follows-wake z q w ws _ v (0, unfold after in e, ground (arith, v''))
  resolve-Settles cancel q w ws next v s =
      let (_, v') = others_refines z q w.calls v in
      Follows-wake z q w ws _ v (0, unfold after in refl, ground (arith, v'))

  start_round-Settles :
      (t : Bool) (c : Context) (q : BlockingQueue A) (ws : List (Wake A)) (r : Waited A)
      → IsValid q
      → Settles z blocked q ws r
      → Settles z blocked q ws (start_round t c q r)
  unfolding start_round
  start_round-Settles true nil q ws r v s = Follows-now z q ws v
  start_round-Settles true live q ws r v s = s
  start_round-Settles true cancelled q ws r v s = s
  start_round-Settles false c q ws r v s = s

  watch-Settles :
      (b : Bool) (q : BlockingQueue A) (w : Wake A) (ws : List (Wake A)) (r : Waited A)
      → IsValid q
      → Settles z blocked q (w ∷ ws) r
      → Settles z blocked q (w ∷ ws) (watch b (others z q w.calls) r)
  unfolding watch
  watch-Settles false q w ws r v s = s
  watch-Settles true q w ws r v s =
      let (_, v') = others_refines z q w.calls v in
      Follows-wake z q w ws _ v (Follows-now z (others z q w.calls) ws v')

  -- The loop ends with the queue that the other goroutines' calls leave.
  pub wait_loop-Settles :
      (q : BlockingQueue A) (ws : List (Wake A))
      → IsValid q
      → Settles z blocked q ws (wait_loop z watched timed ctx blocked count q ws)
  unfolding wait_loop
  wait_loop-Settles q [] v = elim (Bool-cases (blocked q && not q.closed)) [
    | inl e ↦ rw e (start_round-Settles timed ctx q [] (asleep q) v (Follows-now z q [] v))
    | inr e ↦ rw e (Follows-now z q [] v, e)
  ]
  wait_loop-Settles q (w ∷ ws) v = elim (Bool-cases (blocked q && not q.closed)) [
    | inl e ↦ rw e (
        start_round-Settles timed ctx q (w ∷ ws) _ v (
          watch-Settles (watched && w.closed_again) q w ws _ v (
            resolve-Settles (verdict timed ctx w.cause) q w ws _ v
              (wait_loop-Settles (others z q w.calls) ws (others_refines z q w.calls v).1))))
    | inr e ↦ rw e (Follows-now z q (w ∷ ws) v, e)
  ]
