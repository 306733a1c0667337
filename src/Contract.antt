-- ===== src/Contract.antt =====
-- Contract calls, src/contract.rs: the memory image of call arguments, the canonical message of a
-- signed order, and the deploy call.
pub mod Answers
pub mod Word
pub mod Memory
pub mod Field
pub mod Spans
pub mod Place
pub mod Message
pub mod OrderCall
pub mod CallArgs
pub mod Deploy
pub mod Keys
