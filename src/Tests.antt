-- ===== src/Tests.antt =====
-- Concrete runs, and each theorem at an input that meets its conditions.
mod Samples
mod Text
mod Log
mod Drills
mod Forms
mod Life
mod Files
mod Exercise
mod Configs
mod Checking
mod Talks
mod Provisions
