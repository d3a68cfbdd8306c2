-- ===== src/Runtime.antt =====
-- The runtime behind the backend: its contract and the process that runs one solver.
pub mod Contract
pub mod Pipeline
pub mod Runner
pub mod Listener
pub mod Adapter
pub mod Placeholder
pub mod Enumeration
mod Tests
