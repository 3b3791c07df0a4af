-- ===== src/Claim.antt =====
-- core/claim: claims, their construction and their lifecycle.
mod Schema
mod Lifecycle
unfoldable pub use Schema.*
unfoldable pub use Lifecycle.*
pub mod Runs
pub mod Accepts
pub mod Formed
mod Examples
