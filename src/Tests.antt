-- ===== src/Tests.antt =====
-- The theorems at concrete inputs, on one platform with concrete answers.
pub mod Fixture
pub mod Sessions
pub mod Rows
pub mod Tables
pub mod Shared
pub mod Entries
pub mod Names
pub mod Counted
pub mod Chunked
pub mod Blocks
pub mod Answered
pub mod Wires
pub mod Protocols
