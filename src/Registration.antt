-- ===== src/Registration.antt =====
-- registration-service: the service that registers voters on request.
pub mod Context
pub mod Worker
pub mod Files
pub mod Rest
pub mod Job
mod Scenarios
