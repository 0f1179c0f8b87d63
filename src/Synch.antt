-- ===== src/Synch.antt =====
-- kern/thread/synch.c: semaphores, locks and condition variables, over the threads of Thread. A
-- thread runs until it sleeps, yields or comes out of a function; what the functions do in between
-- is done with interrupts off, in one step.
mod Defs
pub mod Acts
pub mod Safety
mod Blocked
mod Wakeups
pub mod Soundness
pub mod Progress
mod Tests
