-- ===== src/Locks.antt =====
-- The locks that the methods of the bindings take, and threads that call these methods at once.
pub mod Methods
pub mod Threads
pub mod Order
pub mod Progress
pub mod Completion
