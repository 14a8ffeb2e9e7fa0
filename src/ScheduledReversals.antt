-- ===== src/ScheduledReversals.antt =====
-- services/sphere-finance/src/scheduled-reversals/scheduled-reversals.service.ts: the class
-- ScheduledReversalsService. `Schedules` has create(), cancel(), list() and findOne(), `Engine`
-- claimAndExecuteOne(), and `Processing` processDue().
mod Schedules
mod Engine
mod Processing
pub mod Transitions
pub mod Claims
pub mod Outcomes
pub mod Table
pub mod Batch
unfoldable pub use Schedules.*
unfoldable pub use Engine.*
unfoldable pub use Processing.*
