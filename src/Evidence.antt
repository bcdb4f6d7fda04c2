-- ===== src/Evidence.antt =====
-- internal/evidence: the signed log of drill records.
pub mod Codes
pub mod Result
pub mod Truncate
pub mod Record
pub mod Json
pub mod Canonical
pub mod Timestamp
pub mod Validate
pub mod Marshal
pub mod Codec
pub mod Walk
pub mod Store
pub mod Anchor
pub mod Witness
