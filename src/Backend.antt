-- ===== src/Backend.antt =====
-- src/planes/backend: the job lifecycle behind the HTTP API.
pub mod Models
pub mod Engines
pub mod Store
pub mod WindFilter
pub mod Worker
pub mod Service
pub mod Api
pub mod ErrorCodes
mod Tests
