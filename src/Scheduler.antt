-- ===== src/Scheduler.antt =====
-- internal/scheduler: the queue of on-demand functions, the periodic tasks, and their goroutines.
pub mod Queue
pub mod Task
pub mod Goroutines
