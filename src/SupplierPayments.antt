-- ===== src/SupplierPayments.antt =====
-- services/sphere-finance/src/accounts-payable/supplier-payments/supplier-payments.service.ts:
-- the class SupplierPaymentsService. `Lookup` has the private helpers that read, check and
-- number, `Drafts` create(), update(), remove() and the reads, `Bills` the loops over the
-- allocated bills, `Posting` post(), `Allocation` applyAllocation(), and `Reversal` reverse().
mod Lookup
mod Drafts
mod Bills
mod Posting
mod Allocation
mod Reversal
pub mod Frames
pub mod Loads
pub mod Booking
pub mod Unwinding
pub mod Balances
pub mod Payables
pub mod Keeping
pub mod Applied
pub mod Completion
pub mod Ready
pub mod Paid
unfoldable pub use Lookup.*
unfoldable pub use Drafts.*
unfoldable pub use Bills.*
unfoldable pub use Posting.*
unfoldable pub use Allocation.*
unfoldable pub use Reversal.*
