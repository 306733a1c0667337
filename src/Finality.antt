-- ===== src/Finality.antt =====
-- src/finality.rs: which headers are final, under which roster, and what is proven against them.
pub mod Crates
mod Certificate
pub mod Quorum
pub mod Epochs
pub mod Inclusion
pub mod Wire
