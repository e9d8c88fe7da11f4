-- ===== src/Set.antt =====
-- Package set: HashSet, SortedSet and ConcurrentSet.
pub mod HashSet
pub mod SortedSet
pub mod ConcurrentSet
mod Tests
