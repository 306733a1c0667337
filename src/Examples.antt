-- ===== src/Examples.antt =====
-- Concrete inputs: the theorems applied where their hypotheses hold, and tests of the definitions.
mod Session
mod Chain
mod Contract
mod Finality
mod Trust
mod Confirm
mod Inclusion
mod Json
mod Gateway
mod Saved
mod Signing
mod Client
mod Http
mod Answers
