-- ===== src/Core.antt =====
-- internal/core: one drill, from the sandbox to the signed record.
pub mod Message
pub mod World
pub mod Classify
pub mod Refuse
pub mod Execute
pub mod Run
pub mod Request
