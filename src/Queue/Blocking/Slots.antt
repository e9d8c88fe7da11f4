-- ===== src/Queue/Blocking/Slots.antt =====
-- Circular windows of a slice: the elements at indices h, h + 1, ... modulo its length. What a
-- write, a cleared slot and the loops of the queue's source do to a window.
use native.Mathlib.Nat.{mod-add-mod, mod-eq_of_lt, mod-eq-sub-mod, mod-lt}
use native.Mathlib.Decide.{dec_lt}
use fyer_kit.Prelude.{
  ℕ, zero, suc, ◌+◌, ◌-◌, ◌%◌, ◌<◌, ◌≡◌, ◌≢◌, refl, sym, ap, ap₂, ◌∙◌, List, [], ◌∷◌, ◌++◌, arith,
  length, get_or, set, length-set, get_or-set_self, get_or-set_ne,
}

module _ {ℓ} {A : Type ℓ} (z : A) where
  -- The `n` elements from index `h` on, going round at the end of `buf`.
  abbrev pub slots : List A → ℕ → ℕ → List A
  slots buf h zero = []
  slots buf h (suc n) = get_or buf (h % length buf) z ∷ slots buf (h + 1) n

  pub length-slots : (buf : List A) (h n : ℕ) → length (slots buf h n) ≡ n
  length-slots buf h zero = refl
  length-slots buf h (suc n) = ap suc (length-slots buf (h + 1) n)

  -- Windows that agree at every place are equal.
  pub slots_ext :
      (a b : List A) (h k n : ℕ)
      → ((j : ℕ) → j < n → get_or a ((h + j) % length a) z ≡ get_or b ((k + j) % length b) z)
      → slots a h n ≡ slots b k n
  slots_ext a b h k zero e = refl
  slots_ext a b h k (suc n) e = ap₂ ◌∷◌ first (slots_ext a b (h + 1) (k + 1) n rest)
    where
      first : get_or a (h % length a) z ≡ get_or b (k % length b) z
      first =
          ap (λ t. get_or a (t % length a) z) (omega arith)
          ∙ e 0 (omega arith)
          ∙ ap (λ t. get_or b (t % length b) z) (omega arith)

      rest :
          (j : ℕ)
          → j < n
          → get_or a ((h + 1 + j) % length a) z ≡ get_or b ((k + 1 + j) % length b) z
      rest j lt =
          ap (λ t. get_or a (t % length a) z) (omega arith)
          ∙ e (suc j) (omega arith)
          ∙ ap (λ t. get_or b (t % length b) z) (omega arith)

  pub slots-mod : (buf : List A) (h n : ℕ) → slots buf (h % length buf) n ≡ slots buf h n
  slots-mod buf h n =
      slots_ext buf buf (h % length buf) h n
        λ j lt. ap (λ t. get_or buf t z) (mod-add-mod h (length buf) j)

-- Fewer than `m` steps round a circle of `m` places do not come back to the start.
pub mod_step-ne : (m r d : ℕ) → r < m → 0 < d → d < m → (r + d) % m ≢ r
mod_step-ne m r d hr pos small = elim (dec_lt (r + d) m) [
  | yes p ↦ omega (arith, mod-eq_of_lt p)
  | no p ↦ omega (
    arith,
    mod-eq-sub-mod {n = r + d} {m = m} (omega arith),
    mod-eq_of_lt {n = r + d - m} {m = m} (omega arith),
  )
]

-- Two places of a window that is no longer than the slice are two indices.
pub add-mod-ne : (m h j k : ℕ) → j < k → k < m → (h + j) % m ≢ (h + k) % m
add-mod-ne m h j k lt small e =
    mod_step-ne m ((h + j) % m) (k - j) (mod-lt (h + j) (omega arith)) (omega arith) (omega arith)
      (mod-add-mod (h + j) m (k - j) ∙ ap (λ t. t % m) (omega arith) ∙ sym e)

module _ {ℓ} {A : Type ℓ} (z : A) where
  pub slots-snoc :
      (buf : List A) (h n : ℕ)
      → slots z buf h (suc n) ≡ slots z buf h n ++ get_or buf ((h + n) % length buf) z ∷ []
  slots-snoc buf h zero = ap (λ t. get_or buf (t % length buf) z ∷ []) (omega arith)
  slots-snoc buf h (suc n) = ap (get_or buf (h % length buf) z ∷◌) (
      slots-snoc buf (h + 1) n
      ∙ ap (λ t. slots z buf (h + 1) n ++ get_or buf (t % length buf) z ∷ []) (omega arith))

  -- A write at one place of the window is not seen at another.
  pub get_or-set_slot_ne :
      (buf : List A) (h j k : ℕ) (x : A)
      → j ≢ k
      → j < length buf
      → k < length buf
      → get_or
          (set buf ((h + k) % length buf) x)
          ((h + j) % length (set buf ((h + k) % length buf) x))
          z
        ≡ get_or buf ((h + j) % length buf) z
  get_or-set_slot_ne buf h j k x ne hj hk =
      rw (length-set buf ((h + k) % length buf) x)
        (get_or-set_ne buf ((h + k) % length buf) ((h + j) % length buf) x z other)
    where
      other : (h + k) % length buf ≢ (h + j) % length buf
      other e = elim (dec_lt j k) [
        | yes p ↦ add-mod-ne (length buf) h j k p hk (sym e)
        | no p ↦ add-mod-ne (length buf) h k j (omega arith) hj e
      ]

  -- Writing just past a window extends it.
  pub slots-push :
      (buf : List A) (h n : ℕ) (x : A)
      → n < length buf
      → slots z (set buf ((h + n) % length buf) x) h (suc n) ≡ slots z buf h n ++ x ∷ []
  slots-push buf h n x lt =
      slots-snoc (set buf ((h + n) % length buf) x) h n ∙ ap₂ (λ a b. a ++ b ∷ []) same new
    where
      same : slots z (set buf ((h + n) % length buf) x) h n ≡ slots z buf h n
      same =
          slots_ext z _ _ h h n
            λ j hj. get_or-set_slot_ne buf h j n x (omega arith) (omega arith) lt

      new :
          get_or
            (set buf ((h + n) % length buf) x)
            ((h + n) % length (set buf ((h + n) % length buf) x))
            z
          ≡ x
      new =
          rw (length-set buf ((h + n) % length buf) x)
            (get_or-set_self buf ((h + n) % length buf) x z (mod-lt (h + n) (omega arith)))

  -- Clearing the first slot leaves the rest of the window.
  pub slots-pop :
      (buf : List A) (h n : ℕ) (x : A)
      → h < length buf
      → n < length buf
      → slots z (set buf h x) ((h + 1) % length buf) n ≡ slots z buf (h + 1) n
  slots-pop buf h n x hh lt = slots_ext z (set buf h x) buf ((h + 1) % length buf) (h + 1) n λ j hj.
      rw length-set (
        get_or-set_ne buf h (((h + 1) % length buf + j) % length buf) x z (other j hj)
        ∙ ap (λ t. get_or buf t z) (mod-add-mod (h + 1) (length buf) j))
    where
      other : (j : ℕ) → j < n → h ≢ ((h + 1) % length buf + j) % length buf
      other j hj e = mod_step-ne (length buf) h (j + 1) hh (omega arith) (omega arith) (
          ap (λ t. t % length buf) (omega arith) ∙ sym (mod-add-mod (h + 1) (length buf) j) ∙ sym e)
