-- ===== src/DeepCopy/Read.antt =====
-- The value that a struct of Structs stands for in a memory: one of Api.
mod Parts
mod Spec
mod Whole
pub use Parts.*
pub use Spec.*
pub use Whole.*
