-- ===== src/Thread.antt =====
-- kern/thread/thread.c and kern/thread/scheduler.c: threads.
pub mod Defs
pub mod Fork
pub mod Children
pub mod Wakeup
pub mod Switch
pub mod Pids
pub mod Threads
pub mod WakeupOne
mod Tests
mod ForkTests
pub use Defs.{Kernel}
