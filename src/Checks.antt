-- ===== src/Checks.antt =====
-- internal/checks: the checks of a drill on the restored database.
pub mod Text
pub mod Runner
pub mod Kinds
pub mod Freshness
pub mod Loop
pub mod Ends
pub mod Reports
pub mod Expected
pub mod Replace
pub mod Sent
