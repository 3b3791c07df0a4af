-- ===== src/Chain.antt =====
-- chain: the records that are written on chain, their checks, and the adapter that writes nothing.
mod Adapter
unfoldable pub use Adapter.*
pub mod Rules
mod Examples
