-- ===== src/Points/Mutation.antt =====
-- `applyMutation` on every path: sound tables, errors that write nothing, replays, races.
mod Sound
mod Recorded
mod Replay
mod Effect
mod Funds
pub use Sound.*
pub use Recorded.*
pub use Replay.*
pub use Effect.*
pub use Funds.*
