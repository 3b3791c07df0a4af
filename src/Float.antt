-- ===== src/Float.antt =====
-- What the program does with a `float64`, as an interface: the operations, the laws of IEEE 754
-- arithmetic that the proofs use, and numbers in fixed point that meet the laws.
mod Interface
mod Laws
pub use Interface.*
pub use Laws.*
pub mod Order
pub mod Fixed
pub mod WithNan
