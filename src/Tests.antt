-- ===== src/Tests.antt =====
-- Runs of the model on concrete inputs, and the theorems at inputs where their hypotheses hold.
pub mod Consensus
pub mod Platform
pub mod Stores
pub mod Coins
pub mod CheckPoints
pub mod ViewChange
pub mod Logs
pub mod Databases
pub mod Responses
