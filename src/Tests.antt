-- ===== src/Tests.antt =====
-- The properties at concrete inputs: an outside that answers every call, and the texts of the
-- program's own test suite.
pub mod World
pub mod Values
pub mod Sweeps
pub mod Requests
pub mod Launches
pub mod Choices
