-- ===== src/Postgres.antt =====
-- postgres/: the durable inbox and outbox. A transaction runs alone: row locks and the serial order
-- of commits make it so, and `locked` names the rows that others hold where a query skips them.
pub mod Tables
pub mod Rows
pub mod Transition
pub mod Delivery
pub mod Canonical
pub mod Enqueue
pub mod Receipt
pub mod Cleanup
pub mod System
pub mod Runtime
pub mod Schema
pub mod Migrate
