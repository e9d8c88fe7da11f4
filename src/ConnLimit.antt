-- ===== src/ConnLimit.antt =====
-- pool/connlimit/limiter.go: the sliding-window limiter (Window) and the limiter that combines two
-- others (Adaptive).
pub mod Window
pub mod Adaptive
mod Tests
