-- ===== src/Ramqueue.antt =====
-- usr.sbin/smtpd/scheduler_ramqueue.c: the scheduler's queue of envelopes in memory.
pub mod Types
pub mod Backoff
pub mod Queue
pub mod Envelope
pub mod Pending
pub mod Commit
pub mod Flight
pub mod Batch
pub mod Admin
pub mod Listing
pub mod Links
pub mod SortedInsert
pub mod Placement
mod Tests
