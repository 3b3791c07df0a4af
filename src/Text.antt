-- ===== src/Text.antt =====
-- Go strings, as the lists of their code points (the strings of the program are valid UTF-8), and
-- what the program uses of the packages `strings` and `unicode`.
mod Normal
unfoldable pub use Normal.*
pub mod Trim
pub mod Split
