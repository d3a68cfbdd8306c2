-- ===== src/Backend/ErrorCodes.antt =====
-- backend/error_codes.py: the codes and their texts, and the signals that the classification reads.
pub mod Copy
pub mod Patterns
pub mod Signals
pub mod Public
pub mod Classify
pub mod Attach
pub mod Members
