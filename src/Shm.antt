-- ===== src/Shm.antt =====
-- shm.c and shm.h: System V style shared memory segments.
pub mod Table
pub mod Search
pub mod Alloc
pub mod Get
pub mod Attach
pub mod Detach
pub mod Control
pub mod Remove
