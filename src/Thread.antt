-- ===== src/Thread.antt =====
-- Project2/proc.c: processes that consist of threads.
pub mod State
pub mod Slots
pub mod Share
pub mod Sched
pub mod Family
pub mod Life
pub mod Create
pub mod Proof
mod Tests
