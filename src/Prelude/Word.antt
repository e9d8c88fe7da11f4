-- ===== src/Prelude/Word.antt =====
-- Go's integers: a counter of type uint64 wraps, and an int that may be negative is a ℤ.
use native.Mathlib.Nat.{mod-eq_of_lt}
use fyer_kit.Prelude.{
  ℕ, ◌+◌, ◌-◌, ◌%◌, ◌^◌, ◌<◌, ◌≡◌, arith, lt→ltb, refl, Bool, true, false, Option, none, some, leb,
  ltb, if◌then◌else◌,
}

abbrev pub u64_mod : ℕ
u64_mod = 2 ^ 64

-- atomic.AddUint64(&n, 1)
abbrev pub add_one_u64 : ℕ → ℕ
add_one_u64 n = (n + 1) % u64_mod

-- An int: `negsuc n` is -(n + 1).
pub data ℤ : Type 0 where
  pos : ℕ → ℤ
  negsuc : ℕ → ℤ

-- The tests a >= b and a == b on ints.
abbrev pub geb : ℤ → ℤ → Bool
geb (pos a) (pos b) = leb b a
geb (pos a) (negsuc b) = true
geb (negsuc a) (pos b) = false
geb (negsuc a) (negsuc b) = leb a b

-- `i < 0 || i >= n` is `none`; an index in range is handed on as a number.
abbrev pub check_index : ℤ → ℕ → Option ℕ
check_index (pos i) n = if ltb i n then some i else none
check_index (negsuc i) n = none

-- int32(n) for a number that is not negative.
abbrev pub to_i32 : ℕ → ℤ
to_i32 n = let m = n % 2 ^ 32 in if ltb m (2 ^ 31) then pos m else negsuc (2 ^ 32 - 1 - m)

-- a % b for an a that is not negative; b = 0 is a panic.
abbrev pub rem : ℕ → ℤ → ℕ
rem a (pos b) = a % b
rem a (negsuc b) = a % (b + 1)

pub to_i32_small : (n : ℕ) → n < 2 ^ 31 → to_i32 n ≡ pos n
to_i32_small n h =
    let e : n % 2 ^ 32 ≡ n = mod-eq_of_lt (omega arith) in rw (e, lt→ltb n (2 ^ 31) h) refl
