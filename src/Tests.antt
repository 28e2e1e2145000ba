-- ===== src/Tests.antt =====
-- Examples: the theorems at concrete inputs.
pub mod Sessions
pub mod Policies
pub mod Stores
pub mod Documents
pub mod Addresses
pub mod Traces
