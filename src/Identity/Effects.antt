-- ===== src/Identity/Effects.antt =====
-- What each operation did to the tables where it succeeded: the proofs about the identity ledger
-- start from these.
pub mod Steps
pub mod Confirm
pub mod Split
pub mod Reject
pub mod Open
