-- ===== src/Adapter.antt =====
-- internal/adapter: one operation of an adapter process, as messages on its standard output.
pub mod Verbs
pub mod Talk
pub mod Answers
pub mod Permits
pub mod Environment
pub mod Provision
