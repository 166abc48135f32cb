-- ===== src/Identity/Membership.antt =====
-- The membership table as a function: who a mention belongs to, how often, and who it belonged to
-- at an earlier revision. What a move does to each.
pub mod Spec
pub mod Moving
pub mod Bounds
pub mod Holders
