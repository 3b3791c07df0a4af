-- ===== src/Reputation.antt =====
-- core/reputation: the reputation record of a validator, the update after a finalized verdict, and
-- decay.
mod Record
mod Updates
mod Decays
mod Examples
pub mod Scores
pub mod Writes
pub mod Effects
mod Changes
mod Fading
mod Sound
pub mod History
unfoldable pub use Record.*
unfoldable pub use Updates.*
unfoldable pub use Decays.*
