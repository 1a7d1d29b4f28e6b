-- ===== src/Points.antt =====
-- services/api/src/points: the ledger that owns every change of a balance, and its reconciliation.
pub mod Ledger
pub mod Reconciliation
pub mod Listing
pub mod Invariant
pub mod Posting
pub mod Mutation
