-- ===== src/Mock/Rest.antt =====
-- vitup/src/mock/rest.rs: the requests that the mock serves, and how it serves them.
pub mod Defs
mod Query
pub mod Control
pub mod Requests
