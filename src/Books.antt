-- ===== src/Books.antt =====
-- What JournalEntriesService does to the books.
pub mod Shape
pub mod Linked
pub mod Final
pub mod Success
pub mod Outcomes
pub mod Appended
pub mod Netting
pub mod History
pub mod Permanence
pub mod Register
pub mod Numbering
pub mod Numbers
pub mod Counter
pub mod Reversing
pub mod Removal
pub mod DoubleEntry
pub mod Statements
pub mod Ledger
pub mod Tables
pub mod Entries
