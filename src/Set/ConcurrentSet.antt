-- ===== src/Set/ConcurrentSet.antt =====
-- set/concurrentset.go: ConcurrentSet, a HashSet under a sync.RWMutex, and calls of its methods by any number of
-- goroutines. A call reads the set when it enters its critical section and writes when it leaves it; what happens
-- between is any sequence of steps of the others. The lock is as package sync documents it: a writer waits until no call
-- is inside, and a reader until no writer is inside or waits; a reader that waits goes ahead of writers that wait too once
-- one of them is done, which the schedule says.
pub mod Counts
pub mod Linear
pub mod Finish
pub mod Nested
mod Tests
use fyer_kit.Prelude.{
  ℕ, ◌+◌, ◌-◌, Bool, true, false, ◌&&◌, ◌||◌, not, List, [], ◌∷◌, Option, none, some, ◌==◌,
  if◌then◌else◌, get_elem?, set,
}
use fyer_kit.Set.HashSet.{
  HashSet, Other, add, remove, add_all, remove_all, retain_all, clear, contains, contains_all, size,
  is_empty, to_slice, union, intersection, difference, symmetric_difference, is_subset, is_superset,
}

-- The methods that take the lock for writing.
pub data WriteCall (A : Type 0) : Type 0 where
  calls_add calls_remove : A → WriteCall A
  calls_add_all calls_remove_all calls_retain_all : List A → WriteCall A
  calls_clear : WriteCall A

-- Those that take it for reading. Another set of an operation is not a ConcurrentSet: the branches for one are in Nested.
-- ForEach takes a copy.
pub data ReadCall (A : Type 0) : Type 0 where
  calls_contains : A → ReadCall A
  calls_contains_all : List A → ReadCall A
  calls_size calls_is_empty calls_to_slice : ReadCall A
  calls_for_each : (A → Bool) → ReadCall A
  calls_union calls_intersection calls_difference calls_symmetric_difference calls_is_subset :
      Other A → ReadCall A
  calls_is_superset : HashSet A → ReadCall A

pub data Reply (A : Type 0) : Type 0 where
  answers : Bool → Reply A
  counts : ℕ → Reply A
  lists : List A → Reply A
  makes : HashSet A → Reply A
  returns : Reply A

pub data Call (A : Type 0) : Type 0 where
  writes : WriteCall A → Call A
  reads : ReadCall A → Call A

-- A call: not begun, waiting in Lock, inside with the set that it has read, or done with its reply.
pub data Phase (A : Type 0) : Type 0 where
  ready : Call A → Phase A
  locking : WriteCall A → Phase A
  inside : Call A → HashSet A → Phase A
  finished : Reply A → Phase A

pub record RwMutex : Type 0 where
  pub readers : ℕ
  pub writing : Bool
  pub pending : ℕ

-- `log` has the calls that have left, newest first.
pub record ConcurrentSet (A : Type 0) : Type 0 where
  pub items : HashSet A
  pub lock : RwMutex
  pub phases : List (Phase A)
  pub log : List (Call A × Reply A)

module _ {A : Type 0} where
  abbrev pub replied : {B : Type 0} → (B → Reply A) → B × HashSet A → Reply A × HashSet A
  replied make (b, s) = (make b, s)

  -- The elements that ForEach passes to the function: up to the first for which it answers false.
  unfoldable pub passed : (A → Bool) → List A → List A
  passed f [] = []
  passed f (x ∷ xs) = let rest = passed f xs in if f x then x ∷ rest else x ∷ []

module _ {A : Type 0} (equal : A → A → Bool) (visit : List A → List A) where
  unfoldable pub run_write : WriteCall A → HashSet A → Reply A × HashSet A
  unfolding add remove add_all remove_all retain_all clear
  run_write (calls_add x) s = replied answers (add equal x s)
  run_write (calls_remove x) s = replied answers (remove equal x s)
  run_write (calls_add_all xs) s = replied counts (add_all equal xs s)
  run_write (calls_remove_all xs) s = replied counts (remove_all equal xs s)
  run_write (calls_retain_all xs) s = replied counts (retain_all equal visit xs s)
  run_write calls_clear s = (returns, clear s)

  unfoldable pub run_read : ReadCall A → HashSet A → Reply A
  run_read (calls_contains x) s = answers (contains equal x s)
  run_read (calls_contains_all xs) s = answers (contains_all equal xs s)
  run_read calls_size s = counts (size s)
  run_read calls_is_empty s = answers (is_empty s)
  run_read calls_to_slice s = lists (to_slice equal visit s)
  run_read (calls_for_each f) s = lists (passed f (to_slice equal visit s))
  run_read (calls_union other) s = makes (union equal visit s other)
  run_read (calls_intersection other) s = makes (intersection equal visit s other)
  run_read (calls_difference other) s = makes (difference equal visit s other)
  run_read (calls_symmetric_difference other) s = makes (symmetric_difference equal visit s other)
  run_read (calls_is_subset other) s = answers (is_subset equal visit s other)
  run_read (calls_is_superset other) s = answers (is_superset equal visit s other)

  -- What a call does where nothing happens beside it.
  unfoldable pub run_call : Call A → HashSet A → Reply A × HashSet A
  unfolding run_write run_read
  run_call (writes c) s = run_write c s
  run_call (reads c) s = (run_read c s, s)

  abbrev pub leave : Call A → HashSet A → ℕ → ConcurrentSet A → ConcurrentSet A
  leave (writes c) seen i m =
      let (r, s) = run_write c seen in
      record m {
        items = s;
        lock = record m.lock { writing = false };
        phases = set m.phases i (finished r);
        log = (writes c, r) ∷ m.log;
      }
  leave (reads c) seen i m =
      let r = run_read c seen in
      record m {
        lock = record m.lock { readers = m.lock.readers - 1 };
        phases = set m.phases i (finished r);
        log = (reads c, r) ∷ m.log;
      }

  -- A step of the call at `i`, which stays where it is if it must wait. `ahead` lets a reader in before writers that wait.
  abbrev pub step_of : Option (Phase A) → ℕ → Bool → ConcurrentSet A → ConcurrentSet A
  step_of none i ahead m = m
  step_of (some (ready (writes c))) i ahead m = record m {
    lock = record m.lock { pending = m.lock.pending + 1 };
    phases = set m.phases i (locking c);
  }
  step_of (some (ready (reads c))) i ahead m =
      if not m.lock.writing && (m.lock.pending == 0 || ahead)
      then record m {
        lock = record m.lock { readers = m.lock.readers + 1 };
        phases = set m.phases i (inside (reads c) m.items);
      }
      else m
  step_of (some (locking c)) i ahead m =
      if not m.lock.writing && m.lock.readers == 0
      then record m {
        lock = record m.lock { writing = true; pending = m.lock.pending - 1 };
        phases = set m.phases i (inside (writes c) m.items);
      }
      else m
  step_of (some (inside c seen)) i ahead m = leave c seen i m
  step_of (some (finished r)) i ahead m = m

  unfoldable pub step : ℕ → Bool → ConcurrentSet A → ConcurrentSet A
  step i ahead m = step_of (get_elem? m.phases i) i ahead m

  unfoldable pub run : List (ℕ × Bool) → ConcurrentSet A → ConcurrentSet A
  run [] m = m
  run ((i, ahead) ∷ schedule) m = run schedule (step i ahead m)

module _ {A : Type 0} where
  abbrev pub all_ready : List (Call A) → List (Phase A)
  all_ready [] = []
  all_ready (c ∷ cs) = ready c ∷ all_ready cs

  unfoldable pub new_concurrent : HashSet A → List (Call A) → ConcurrentSet A
  new_concurrent s calls = record {
    items = s;
    lock = record { readers = 0; writing = false; pending = 0 };
    phases = all_ready calls;
    log = [];
  }
