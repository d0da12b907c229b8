-- ===== src/Examples.antt =====
-- The theorems at concrete queues, rings, processes, semaphores and mutexes.
pub mod Data
mod Queues
mod Rings
mod Processes
mod Locks
mod Devices
mod RoundTrips
mod Terminals
mod Screen
mod System
mod Bits
mod Typing
mod Programs
