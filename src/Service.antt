-- ===== src/Service.antt =====
-- All services at work on one database: requests, each in a transaction of its own, in any order.
pub mod Step
pub mod Journals
pub mod Deferrals
pub mod Reversals
pub mod Payments
pub mod Requests
