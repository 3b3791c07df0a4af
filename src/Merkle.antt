-- ===== src/Merkle.antt =====
-- merkle: the tree over the votes of a session, proofs of inclusion and their verification.
mod Tree
unfoldable pub use Tree.*
mod Examples
pub mod Chain
pub mod Complete
pub mod Sound
pub mod Duplicate
mod Vote
unfoldable pub use Vote.*
pub mod Commit
