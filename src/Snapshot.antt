-- ===== src/Snapshot.antt =====
-- snapshot-trigger-service: the service that runs the voting tools to take snapshots.
pub mod Context
pub mod Command
pub mod Client
pub mod Files
pub mod Rest
pub mod Worker
mod Scenarios
