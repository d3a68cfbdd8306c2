-- ===== src/Backend/Tests.antt =====
-- Runs of the backend on concrete data, and the theorems at inputs that meet their hypotheses.
mod Data
mod Codes
mod Engines
mod Jobs
mod Loops
mod Requests
