-- ===== src/Uio.antt =====
-- protodrv_api/uio: register access through a mapped UIO device, its options, its start and end, and
-- its interrupt thread.
pub mod Globals
pub mod Access
pub mod Args
pub mod Sysfs
pub mod Platform
pub mod Thread
pub mod Stubs
pub mod Tests
