-- ===== src/Kernel.antt =====
-- The kernel that mounts plugins: the owner of what a plugin registers, and the event bus.
pub mod Fiber
pub mod Events
