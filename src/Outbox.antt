-- ===== src/Outbox.antt =====
-- packages/outbox/src/outbox-manager.ts, the class `OutboxManager` over the rows of the table that it
-- polls. The database client and the Kafka producer are outside the repository: what they do to one
-- event is an `Outcome`. A poll runs to its end before the next (`isProcessing`), so it is one event
-- here. Texts that are only handed on are numbers; `inferTopic` rewrites text with a regular
-- expression and is a parameter. Timers, listeners and statistics are left out.
pub mod Table
pub mod Manager
pub mod Soundness
pub mod Run
pub mod Delivery
pub mod Stuck
mod Examples
