-- ===== src/Identity.antt =====
-- aegis/er: who a mention belongs to. The tables, the ledger of decisions, its adjudication and
-- the canonical map that is rebuilt from it.
pub mod Store
pub mod Monad
pub mod Ledger
pub mod Canonical
pub mod Scope
pub mod Moves
pub mod Candidates
pub mod Constraints
pub mod Splits
pub mod Adjudication
pub mod Membership
pub mod Effects
pub mod Steps
pub mod Merging
pub mod Rejections
pub mod History
pub mod Concurrency
pub mod Lineage
mod Tests
