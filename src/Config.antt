-- ===== src/Config.antt =====
-- internal/config: what an operator writes, and its validation.
pub mod Check
pub mod Drill
pub mod Gameday
