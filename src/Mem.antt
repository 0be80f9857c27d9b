-- ===== src/Mem.antt =====
-- The channel over shared memory, src/memchannel.h and src/memchannel.cpp.
pub mod Queue
pub mod View
pub mod Channel
pub mod Transfer
pub mod Setup
pub mod KeyLock
pub mod FileLock
mod Tests
