-- ===== src/Bets/Merging.antt =====
-- What `mergeItems` computes: each selection once, with the sum of what was staked on it.
mod Stakes
mod Limits
pub use Stakes.*
pub use Limits.*
