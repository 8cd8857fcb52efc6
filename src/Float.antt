-- ===== src/Float.antt =====
-- `float64`, as what the program does with it: the operations, the facts about them, and an
-- instance for runs.
mod Defs
pub mod Fixed
pub use Defs.*
