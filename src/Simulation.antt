-- ===== src/Simulation.antt =====
-- simulation: synthetic validators, claims and rounds over consensus, reputation and bias.
mod Config
mod Pool
mod Round
mod Report
unfoldable pub use Config.*
unfoldable pub use Pool.*
unfoldable pub use Round.*
unfoldable pub use Report.*
pub mod Rules
mod Tallies
mod Averages
mod Profiles
pub mod Runs
pub mod Blank
mod Examples
