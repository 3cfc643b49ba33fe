-- ===== src/Vitup.antt =====
-- vitup: the tool that sets up and runs a backend for a vote.
pub mod Initials
pub mod Manager
pub mod Setup
pub mod Files
pub mod Client
mod Scenarios
