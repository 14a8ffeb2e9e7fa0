-- ===== src/Database.antt =====
-- The tables of services/sphere-finance/src/db/schema.ts that the modelled services touch, the
-- transaction of `withTenant` (services/sphere-finance/src/db/db.ts), and the platform's values.
mod Schema
mod Payables
mod Store
pub mod Tx
pub use Schema.*
pub use Payables.*
pub use Store.*
