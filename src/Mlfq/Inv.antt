-- ===== src/Mlfq/Inv.antt =====
-- The well-formedness of the scheduler's queues.
pub mod Threaded
pub mod Members
pub mod Merging
pub mod Sorted
pub mod Level
pub mod Boost
pub mod Live
pub mod Held
pub mod Yield
pub mod Pick
pub mod Asleep
pub mod Wakeup
pub mod Wake
pub mod Locking
pub mod Calm
pub mod Doom
pub mod Killing
pub mod Boot
pub mod Exiting
pub mod Waiting
pub mod Reaping
pub mod Placing
pub mod Forking
pub mod Growing
pub mod Bearing
pub mod Steps
pub mod Turn
pub mod Stirring
pub mod Ranking
pub mod Adopting
pub mod Setting
