-- ===== src/WorkPool.antt =====
-- workpool/: the configuration (Config), a submitted task (Task), the priority queue of tasks (TaskQueue), and the pool of
-- workers (Workers, Run).
pub mod Config
pub mod Task
pub mod Life
pub mod TaskQueue
pub mod Workers
pub mod Run
pub mod Counters
pub mod Actions
pub mod Scaling
pub mod Tasks
pub mod Urgent
pub mod Metrics
pub mod Unchanged
pub mod Measured
mod Tests
