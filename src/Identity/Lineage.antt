-- ===== src/Identity/Lineage.antt =====
-- The canonical map: following the lineage, replaying the decisions, rebuilding the table.
pub mod Resolve
pub mod Replay
pub mod Moved
pub mod Decisions
pub mod Late
pub mod Rebuild
pub mod Merged
