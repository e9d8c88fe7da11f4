-- ===== src/Pool/Books.antt =====
-- pool/pool.go: the books of an open pool. The counters say how many connections are out and idle, and no
-- connection is in two places.
use fyer_kit.Prelude.{
  ℕ, ◌+◌, ◌≤◌, ◌<◌, ◌≡◌, refl, List, [], ◌∷◌, ◌++◌, Option, none, some, arith, ◌==◌, if◌then◌else◌,
  length, length-append,
}
use fyer_kit.Pool.Types.{Count, up, down, Conn}
use fyer_kit.Pool.{ConnectionPool, delete_conn}

-- How many of the connections are the one with this identity.
unfoldable pub occurs : ℕ → List Conn → ℕ
occurs i [] = 0
occurs i (c ∷ cs) = (if c.id == i then 1 else 0) + occurs i cs

abbrev pub idle_list : Option (List Conn) → List Conn
idle_list none = []
idle_list (some l) = l

-- While the channel is there, the idle and total counters count its connections, and the total those that are out.
abbrev pub Counted : Option (List Conn) → ℕ → Count → Count → Type 0
Counted none active idle_count total_count = Unit
Counted (some l) active idle_count total_count =
    (idle_count.ups ≡ idle_count.downs + length l)
    × (total_count.ups ≡ total_count.downs + active + length l)

-- The active counter counts the connections that are out, the channel holds no more than its capacity, and
-- every identity below the next one stands at one place at most.
pub record Books (max_idle : ℕ) (idle : Option (List Conn)) (active : List Conn) (next_id : ℕ)
    (active_count idle_count total_count : Count) : Type 0 where
  pub counts_active : active_count.ups ≡ active_count.downs + length active
  pub counted : Counted idle (length active) idle_count total_count
  pub fits : length (idle_list idle) ≤ max_idle
  pub once : (i : ℕ) → occurs i active + occurs i (idle_list idle) ≤ 1
  pub old : (i : ℕ) → next_id ≤ i → occurs i active + occurs i (idle_list idle) ≡ 0

abbrev pub IsValid : ConnectionPool → Type 0
IsValid p =
    Books p.opts.max_idle p.idle p.active_conns p.next_id p.stats.active p.stats.idle p.stats.total

pub occurs-append : (i : ℕ) (xs ys : List Conn) → occurs i (xs ++ ys) ≡ occurs i xs + occurs i ys
unfolding occurs
occurs-append i [] ys = omega arith
occurs-append i (x ∷ xs) ys = omega (arith, occurs-append i xs ys)

pub occurs-delete_conn :
    (i : ℕ) (c : Conn) (l : List Conn)
    → occurs i (delete_conn c l) ≡ (if c.id == i then 0 else occurs i l)
unfolding occurs delete_conn
occurs-delete_conn i c [] = ground arith
occurs-delete_conn i c (d ∷ ds) = ground (arith, occurs-delete_conn i c ds)

pub length-delete_conn :
    (c : Conn) (l : List Conn) → length (delete_conn c l) + occurs c.id l ≡ length l
unfolding occurs delete_conn
length-delete_conn c [] = refl
length-delete_conn c (d ∷ ds) = ground (arith, length-delete_conn c ds)

module _ (m n : ℕ) (active : List Conn) (a i t : Count) where
  -- An idle connection goes.
  pub expire-Books :
      (c : Conn) (cs : List Conn)
      → Books m (some (c ∷ cs)) active n a i t
      → Books m (some cs) active n a (down i) (down t)
  unfolding occurs
  expire-Books c cs b = record {
    counts_active = b.counts_active;
    counted = ground (arith, b.counted);
    fits = ground (arith, b.fits);
    once = λ j. ground (arith, b.once j);
    old = λ j h. ground (arith, b.old j h);
  }

  -- An idle connection goes out.
  pub borrow-Books :
      (c d : Conn) (cs : List Conn)
      → d.id ≡ c.id
      → Books m (some (c ∷ cs)) active n a i t
      → Books m (some cs) (d ∷ active) n (up a) (down i) t
  unfolding occurs
  borrow-Books c d cs e b = record {
    counts_active = ground (arith, b.counts_active);
    counted = ground (arith, b.counted);
    fits = ground (arith, b.fits);
    once = λ j. ground (arith, e, b.once j);
    old = λ j h. ground (arith, e, b.old j h);
  }

  -- A new connection goes out.
  pub create-Books :
      (idle : Option (List Conn)) (c : Conn)
      → c.id ≡ n
      → Books m idle active n a i t
      → Books m idle (c ∷ active) (n + 1) (up a) i (up t)
  unfolding occurs
  create-Books none c e b = record {
    counts_active = ground (arith, b.counts_active);
    counted = tt;
    fits = b.fits;
    once = λ j. ground (arith, e, b.once j, b.old n);
    old = λ j h. ground (arith, e, b.old j);
  }
  create-Books (some l) c e b = record {
    counts_active = ground (arith, b.counts_active);
    counted = ground (arith, b.counted);
    fits = b.fits;
    once = λ j. ground (arith, e, b.once j, b.old n);
    old = λ j h. ground (arith, e, b.old j);
  }

  -- An identity is used up.
  pub skip-Books :
      (idle : Option (List Conn)) → Books m idle active n a i t → Books m idle active (n + 1) a i t
  skip-Books idle b = record {
    counts_active = b.counts_active;
    counted = b.counted;
    fits = b.fits;
    once = b.once;
    old = λ j h. b.old j (omega arith);
  }

  -- A connection that is out is closed.
  pub discard-Books :
      (idle : Option (List Conn)) (c : Conn)
      → occurs c.id active ≡ 1
      → Books m idle active n a i t
      → Books m idle (delete_conn c active) n (down a) i (down t)
  discard-Books none c e b = record {
    counts_active = ground (arith, b.counts_active, e, length-delete_conn c active);
    counted = tt;
    fits = b.fits;
    once = λ j. ground (arith, b.once j, occurs-delete_conn j c active);
    old = λ j h. ground (arith, b.old j h, occurs-delete_conn j c active);
  }
  discard-Books (some l) c e b = record {
    counts_active = ground (arith, b.counts_active, e, length-delete_conn c active);
    counted = ground (arith, b.counted, e, length-delete_conn c active);
    fits = b.fits;
    once = λ j. ground (arith, b.once j, occurs-delete_conn j c active);
    old = λ j h. ground (arith, b.old j h, occurs-delete_conn j c active);
  }

  -- A connection that is out comes back.
  pub return-Books :
      (l : List Conn) (c d : Conn)
      → d.id ≡ c.id
      → occurs c.id active ≡ 1
      → length l < m
      → Books m (some l) active n a i t
      → Books m (some (l ++ d ∷ [])) (delete_conn c active) n (down a) (up i) t
  unfolding occurs
  return-Books l c d same e room b = record {
    counts_active = ground (arith, b.counts_active, e, length-delete_conn c active);
    counted = ground (arith, b.counted, e, length-delete_conn c active, length-append l (d ∷ []));
    fits = ground (arith, room, length-append l (d ∷ []));
    once = λ j.
        ground
          (arith, same, e, b.once j, occurs-delete_conn j c active, occurs-append j l (d ∷ []));
    old = λ j h. ground (
      arith,
      same,
      e,
      b.old j h,
      b.old c.id,
      occurs-delete_conn j c active,
      occurs-append j l (d ∷ []),
    );
  }
