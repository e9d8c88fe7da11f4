-- ===== src/Service/Registry.antt =====
-- internal/queueservice/inmemory.go: the map of queues against the map of the lists that they stand for.
use fyer_kit.Prelude.{
  ℕ, suc, ◌≡◌, refl, ap, inl, inr, List, [], ◌∷◌, Option, none, some, arith, Bool-cases, ◌==◌,
  if-intro,
}
use fyer_kit.Service.InMemory.{AnyQueue, blocking, non_blocking, QueueEntry, find, put_at, erase}
use fyer_kit.Service.Contract.{view_queue, view_all, view_option, QueueValid, AllValid}

module _ {A : Type 0} (z : A) where
  pub find-view_all :
      (n : ℕ) (l : List (ℕ × QueueEntry A)) → find n (view_all z l) ≡ view_option z (find n l)
  find-view_all n [] = refl
  find-view_all n ((k, e) ∷ l) = elim (Bool-cases (k == n)) [
    | inl b ↦ rw b refl
    | inr b ↦ rw b (find-view_all n l)
  ]

  pub put_at-view_all :
      (n : ℕ) (e : QueueEntry A) (l : List (ℕ × QueueEntry A))
      → view_all z (put_at n e l) ≡ put_at n (view_queue z e.queue) (view_all z l)
  put_at-view_all n e [] = refl
  put_at-view_all n e ((k, x) ∷ l) = elim (Bool-cases (k == n)) [
    | inl b ↦ rw b (ap ((k, view_queue z e.queue) ∷◌) (put_at-view_all n e l))
    | inr b ↦ rw b (ap ((k, view_queue z x.queue) ∷◌) (put_at-view_all n e l))
  ]

  pub erase-view_all :
      (n : ℕ) (l : List (ℕ × QueueEntry A)) → view_all z (erase n l) ≡ erase n (view_all z l)
  erase-view_all n [] = refl
  erase-view_all n ((k, x) ∷ l) = elim (Bool-cases (k == n)) [
    | inl b ↦ rw b (erase-view_all n l)
    | inr b ↦ rw b (ap ((k, view_queue z x.queue) ∷◌) (erase-view_all n l))
  ]

  QueueValid-less : (n : ℕ) (q : AnyQueue A) → QueueValid z (suc n) q → QueueValid z n q
  QueueValid-less n (blocking q) v = v
  QueueValid-less n (non_blocking q) (v, s) = (v, ground (arith, s))

  pub AllValid-less : (n : ℕ) (l : List (ℕ × QueueEntry A)) → AllValid z (suc n) l → AllValid z n l
  AllValid-less n [] v = tt
  AllValid-less n ((k, e) ∷ l) (v, w) = (QueueValid-less n e.queue v, AllValid-less n l w)

  pub AllValid-put_at :
      (n m : ℕ) (e : QueueEntry A) (l : List (ℕ × QueueEntry A))
      → QueueValid z n e.queue
      → AllValid z n l
      → AllValid z n (put_at m e l)
  AllValid-put_at n m e [] v w = tt
  AllValid-put_at n m e ((k, x) ∷ l) v (u, w) = elim (Bool-cases (k == m)) [
    | inl b ↦ rw b (v, AllValid-put_at n m e l v w)
    | inr b ↦ rw b (u, AllValid-put_at n m e l v w)
  ]

  pub AllValid-erase :
      (n m : ℕ) (l : List (ℕ × QueueEntry A)) → AllValid z n l → AllValid z n (erase m l)
  AllValid-erase n m [] w = tt
  AllValid-erase n m ((k, x) ∷ l) (u, w) = elim (Bool-cases (k == m)) [
    | inl b ↦ rw b (AllValid-erase n m l w)
    | inr b ↦ rw b (u, AllValid-erase n m l w)
  ]

  abbrev pub FoundValid : ℕ → Option (QueueEntry A) → Type 0
  FoundValid n none = Unit
  FoundValid n (some e) = QueueValid z n e.queue

  pub find-Valid :
      (n m : ℕ) (l : List (ℕ × QueueEntry A)) → AllValid z n l → FoundValid n (find m l)
  find-Valid n m [] w = tt
  find-Valid n m ((k, x) ∷ l) (u, w) =
      if-intro (FoundValid n) (k == m) (λ _. u) λ _. find-Valid n m l w
