-- ===== src/Examples.antt =====
-- The theorems at concrete inputs.
pub mod Uri
pub mod Ranges
pub mod Masks
pub mod Http
pub mod Sessions
pub mod Files
pub mod Types
pub mod Server
pub mod Text
