-- ===== src/Deferral.antt =====
-- services/sphere-finance/src/deferral-recognition/deferral-recognition.service.ts: the class
-- DeferralRecognitionService. `Schedules` has create() and cancel(), `Engine` the
-- claim-and-execute step, `Processing` processDue(), and `Queries` the reads by schedule and by
-- journal entry.
mod Schedules
mod Engine
mod Processing
mod Queries
pub mod Plan
pub mod Cancelling
pub mod Claims
pub mod Execution
pub mod DrillDown
pub mod Success
pub mod Batch
unfoldable pub use Schedules.*
unfoldable pub use Engine.*
unfoldable pub use Processing.*
unfoldable pub use Queries.*
