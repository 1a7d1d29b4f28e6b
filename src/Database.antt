-- ===== src/Database.antt =====
-- The tables of services/api/prisma/migrations/20260910000000_phase2a_init/migration.sql that the
-- points, bet and round services read and write, the errors that those services raise, and
-- Prisma's interactive transactions. Identifiers (UUIDs) are numbers, since the code only compares
-- them; money is a signed integer number of centipoints; a time is a number.
mod Rows
mod Errors
mod Transactions
pub mod Statements
pub use Rows.*
pub use Errors.*
pub use Transactions.*
