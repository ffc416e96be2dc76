-- ===== src/Tests.antt =====
-- Runs of the models, and the theorems at concrete states of the program.
pub mod Fixture
pub mod Rings
pub mod Messages
pub mod Locked
pub mod LockFree
pub mod Nonblocking
pub mod Sockets
pub mod Threads
pub mod Program
