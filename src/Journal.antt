-- ===== src/Journal.antt =====
-- services/sphere-finance/src/journal-entries/journal-entries.service.ts: the class
-- JournalEntriesService. `Lines` has the line DTO and the checks on lines, `Lookup` the private
-- helpers that read and number, `Drafts`, `Posting` and `Reversal` the operations, and `Queries`
-- the reads. `Validity` proves what the checks on ids find.
mod Lines
mod Lookup
mod Drafts
mod Posting
mod Reversal
mod Queries
pub mod Validity
unfoldable pub use Lines.*
unfoldable pub use Lookup.*
unfoldable pub use Drafts.*
unfoldable pub use Posting.*
unfoldable pub use Reversal.*
unfoldable pub use Queries.*
