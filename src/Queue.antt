-- ===== src/Queue.antt =====
-- queueing.py: the queue-bearing aggregate.
pub mod Document
pub mod Mailboxes
pub mod Seal
pub mod Admit
pub mod Accept
pub mod Lifecycle
pub mod Emissions
pub mod Deferrals
pub mod Step
