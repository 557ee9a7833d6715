-- ===== src/Tests.antt =====
-- The theorems at concrete calls, served by a small backend in memory.
mod Disk
mod Runtime
mod Exchange
mod Procedures
mod Details
mod Outcomes
mod Mounting
