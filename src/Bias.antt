-- ===== src/Bias.antt =====
-- core/bias: sliding windows of observations, and the bias coefficient.
mod Window
mod Track
unfoldable pub use Window.*
unfoldable pub use Track.*
mod Examples
pub mod Coefficient
pub mod Fifo
pub mod Tracking
mod Pairs
pub mod Refine
pub mod Clash
