-- ===== src/Store.antt =====
-- store: the node's state on disk, records and secondary indexes in a key-value database.
mod Badger
mod Memory
mod Keys
mod Records
mod Base
mod Claims
mod Validations
mod Effects
mod Writes
mod Spaces
mod Prefixes
mod Indexed
mod Reached
mod Growth
mod Scans
mod Queries
pub mod Found
pub mod Trips
pub mod Errors
pub mod Recorded
pub mod Clash
mod Examples
pub mod History
unfoldable pub use Badger.*
unfoldable pub use Keys.*
unfoldable pub use Records.*
unfoldable pub use Base.*
unfoldable pub use Claims.*
unfoldable pub use Validations.*
