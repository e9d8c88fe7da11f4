-- ===== src/Set/ConcurrentSet/Linear.antt =====
-- set/concurrentset.go: however the calls interleave, they act as if each ran alone, in the order in which they leave.
use fyer_kit.Prelude.{
  ℕ, ◌≡◌, refl, sym, ap, ◌⊎◌, inl, inr, Bool, true, false, not, ◌&&◌, ◌||◌, List, [], ◌∷◌, Option,
  none, some, ◌==◌, get_elem?, set, arith, if-intro,
}
use fyer_kit.Set.HashSet.{HashSet}
use fyer_kit.Set.ConcurrentSet.{
  WriteCall, ReadCall, Reply, Call, writes, reads, Phase, ready, locking, inside, finished,
  ConcurrentSet, run_write, run_read, run_call, leave, step_of, step, run, all_ready,
  new_concurrent,
}
use fyer_kit.Set.ConcurrentSet.Counts.{
  reading, writing_now, waiting, total, total-set, AllSaw, AllSaw-at, AllSaw-set, AllSaw-none,
}

abbrev pub one_if : Bool → ℕ
one_if true = 1
one_if false = 0

module _ {A : Type 0} (equal : A → A → Bool) (visit : List A → List A) where
  -- The calls of the log, run one after the other from the first set, give their replies and the last set.
  abbrev pub Replays : HashSet A → List (Call A × Reply A) → HashSet A → Type 0
  Replays first [] s = s ≡ first
  Replays first ((c, r) ∷ log) s =
      (before : HashSet A) × Replays first log before × (run_call equal visit c before ≡ (r, s))

  -- The lock counts the calls inside and those that wait, a writer inside is alone, every call inside has read the set as
  -- it is, and the log replays.
  pub record Guarded (first : HashSet A) (m : ConcurrentSet A) : Type 0 where
    pub readers : m.lock.readers ≡ total reading m.phases
    pub writer : one_if m.lock.writing ≡ total writing_now m.phases
    pub pending : m.lock.pending ≡ total waiting m.phases
    pub alone : (m.lock.readers ≡ 0) ⊎ (m.lock.writing ≡ false)
    pub fresh : AllSaw m.items m.phases
    pub replays : Replays first m.log m.items

  module _ (first : HashSet A) (i : ℕ) (m : ConcurrentSet A) (v : Guarded first m) where
    ask-Guarded :
        (ahead : Bool) (c : WriteCall A)
        → get_elem? m.phases i ≡ some (ready (writes c))
        → Guarded first (step_of equal visit (some (ready (writes c))) i ahead m)
    ask-Guarded ahead c e =
        let at = λ (f : Phase A → ℕ). total-set f m.phases i (ready (writes c)) (locking c) e in
        record {
          readers = omega (arith, v.readers, at reading);
          writer = omega (arith, v.writer, at writing_now);
          pending = omega (arith, v.pending, at waiting);
          alone = v.alone;
          fresh = AllSaw-set m.items m.phases i (locking c) tt v.fresh;
          replays = v.replays;
        }

    read-Guarded :
        (ahead : Bool) (c : ReadCall A)
        → get_elem? m.phases i ≡ some (ready (reads c))
        → Guarded first (step_of equal visit (some (ready (reads c))) i ahead m)
    read-Guarded ahead c e =
        if-intro (Guarded first) (not m.lock.writing && (m.lock.pending == 0 || ahead))
          (λ open_now.
            let at = λ (f : Phase A → ℕ).
              total-set f m.phases i (ready (reads c)) (inside (reads c) m.items) e in
            record {
              readers = omega (arith, v.readers, at reading);
              writer = omega (arith, v.writer, at writing_now);
              pending = omega (arith, v.pending, at waiting);
              alone = inr (ground (arith, open_now));
              fresh = AllSaw-set m.items m.phases i (inside (reads c) m.items) refl v.fresh;
              replays = v.replays;
            })
          λ _. v

    lock-Guarded :
        (ahead : Bool) (c : WriteCall A)
        → get_elem? m.phases i ≡ some (locking c)
        → Guarded first (step_of equal visit (some (locking c)) i ahead m)
    lock-Guarded ahead c e =
        if-intro (Guarded first) (not m.lock.writing && m.lock.readers == 0)
          (λ open_now.
            let at = λ (f : Phase A → ℕ).
              total-set f m.phases i (locking c) (inside (writes c) m.items) e in
            let free : m.lock.writing ≡ false = ground (arith, open_now) in
            record {
              readers = omega (arith, v.readers, at reading);
              writer = omega (arith, rw free at v.writer, at writing_now);
              pending = omega (arith, v.pending, at waiting);
              alone = inl (ground (arith, open_now));
              fresh = AllSaw-set m.items m.phases i (inside (writes c) m.items) refl v.fresh;
              replays = v.replays;
            })
          λ _. v

    write-Guarded :
        (c : WriteCall A) (seen : HashSet A)
        → get_elem? m.phases i ≡ some (inside (writes c) seen)
        → Guarded first (leave equal visit (writes c) seen i m)
    unfolding run_call run_write
    write-Guarded c seen e =
        let (r, s) = run_write equal visit c seen in
        let at =
          λ (f : Phase A → ℕ). total-set f m.phases i (inside (writes c) seen) (finished r) e in
        let held : m.lock.writing ≡ true = ground (arith, v.writer, at writing_now) in
        let no_reader : m.lock.readers ≡ 0 = ground (arith, held, v.alone) in
        record {
          readers = omega (arith, v.readers, at reading);
          writer = omega (arith, rw held at v.writer, at writing_now);
          pending = omega (arith, v.pending, at waiting);
          alone = inr refl;
          fresh = AllSaw-none s (set m.phases i (finished r)) (
              omega (arith, v.readers, no_reader, rw held at v.writer, at reading, at writing_now));
          replays = (
            m.items,
            v.replays,
            ap (run_write equal visit c)
                (sym (AllSaw-at m.items m.phases i (inside (writes c) seen) e v.fresh)),
          );
        }

    done-Guarded :
        (c : ReadCall A) (seen : HashSet A)
        → get_elem? m.phases i ≡ some (inside (reads c) seen)
        → Guarded first (leave equal visit (reads c) seen i m)
    unfolding run_call
    done-Guarded c seen e =
        let r = run_read equal visit c seen in
        let at =
          λ (f : Phase A → ℕ). total-set f m.phases i (inside (reads c) seen) (finished r) e in
        record {
          readers = omega (arith, v.readers, at reading);
          writer = omega (arith, v.writer, at writing_now);
          pending = omega (arith, v.pending, at waiting);
          alone = ground (arith, v.alone, v.readers, at reading);
          fresh = AllSaw-set m.items m.phases i (finished r) tt v.fresh;
          replays = (
            m.items,
            v.replays,
            ap (λ s. (run_read equal visit c s, m.items))
                (sym (AllSaw-at m.items m.phases i (inside (reads c) seen) e v.fresh)),
          );
        }

    step_of-Guarded :
        (ahead : Bool) (o : Option (Phase A))
        → get_elem? m.phases i ≡ o
        → Guarded first (step_of equal visit o i ahead m)
    step_of-Guarded ahead none e = v
    step_of-Guarded ahead (some (ready (writes c))) e = ask-Guarded ahead c e
    step_of-Guarded ahead (some (ready (reads c))) e = read-Guarded ahead c e
    step_of-Guarded ahead (some (locking c)) e = lock-Guarded ahead c e
    step_of-Guarded ahead (some (inside (writes c) seen)) e = write-Guarded c seen e
    step_of-Guarded ahead (some (inside (reads c) seen)) e = done-Guarded c seen e
    step_of-Guarded ahead (some (finished r)) e = v

  pub run-from :
      (first : HashSet A) (schedule : List (ℕ × Bool)) (m : ConcurrentSet A)
      → Guarded first m
      → Guarded first (run equal visit schedule m)
  unfolding run step
  run-from first [] m v = v
  run-from first ((i, ahead) ∷ schedule) m v =
      run-from first schedule (step equal visit i ahead m)
        (step_of-Guarded first i m v ahead (get_elem? m.phases i) refl)

  ready-none :
      (calls : List (Call A))
      → (total reading (all_ready calls) ≡ 0)
        × (total writing_now (all_ready calls) ≡ 0)
        × (total waiting (all_ready calls) ≡ 0)
  unfolding total
  ready-none [] = (refl, refl, refl)
  ready-none (c ∷ cs) = let (a, b, d) = ready-none cs in (omega arith, omega arith, omega arith)

  -- Whatever calls of a ConcurrentSet there are, none with a second ConcurrentSet as its argument, and in whatever order their steps come, a writer inside is alone, every
  -- call inside has read the set as it still is, and the calls that have left, run one after the other from the first set
  -- in the order in which they left, give the same replies and the same set.
  pub run-Guarded :
      (first : HashSet A) (calls : List (Call A)) (schedule : List (ℕ × Bool))
      → Guarded first (run equal visit schedule (new_concurrent first calls))
  unfolding new_concurrent
  run-Guarded first calls schedule =
      let (a, b, d) = ready-none calls in
      run-from first schedule (new_concurrent first calls) (record {
        readers = sym a;
        writer = sym b;
        pending = sym d;
        alone = inr refl;
        fresh = AllSaw-none first (all_ready calls) (omega (arith, a, b));
        replays = refl;
      })
