-- ===== src/Thread/Proof.antt =====
-- What the loops over the process table and over the threads of a process do.
pub mod Loops
pub mod Chain
pub mod Members
pub mod Delete
pub mod Kill
pub mod Join
pub mod Grow
pub mod Create
