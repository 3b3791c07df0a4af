-- ===== src/Consensus.antt =====
-- core/consensus: the weighted vote aggregation.
mod Votes
mod Compute
pub use Votes.*
unfoldable pub use Compute.*
pub mod Errors
pub mod Weights
pub mod Winner
pub mod Outcome
pub mod Majority
pub mod Masses
pub mod Declared
pub mod Unanimity
pub mod Nan
mod Examples
