-- ===== src/Mlfq.antt =====
-- Project1: the multi-level feedback queue scheduler of Project1/proc.c.
pub mod State
pub mod Queue
pub mod Kernel
pub mod Priority
pub mod Sched
pub mod Sleep
pub mod Lock
pub mod Life
pub mod Birth
pub mod Boot
pub mod Inv
pub mod Desk
mod Tests
