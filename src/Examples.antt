-- ===== src/Examples.antt =====
-- One set of books, and each result at work on it.
pub mod Data
mod Reports
mod Requests
mod Entries
mod Numbers
mod Recognitions
mod Reversals
mod Bills
mod Payments
