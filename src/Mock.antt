-- ===== src/Mock.antt =====
-- vitup/src/mock: the mock of the voting backend.
pub mod Chain
pub mod Run
pub mod Ledger
pub mod State
pub mod Context
pub mod Server
pub mod Rest
mod Scenarios
