-- ===== src/Bets.antt =====
-- services/api/src/bets: bet placement.
mod Items
mod Tables
mod Service
pub mod Merging
pub mod Placement
pub mod Outcomes
pub mod Recorded
pub mod Replay
pub mod Retry
pub mod Paid
pub mod Funding
pub mod Acceptance
unfoldable pub use Items.*
unfoldable pub use Tables.*
unfoldable pub use Service.*
