-- ===== src/Thread.antt =====
-- Threads that work together inside one process: src/gaiathread.cpp, src/SafeQueue.h and
-- src/ThreadPool.h.
pub mod Event
pub mod Runner
pub mod Pool
mod Tests
