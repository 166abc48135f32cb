-- ===== src/Authz.antt =====
-- aegis/authz/outbox.py: the authorization tuples that follow from the tables.
pub mod Tuples
pub mod Outbox
pub mod Sets
pub mod Rebuilt
pub mod Batch
pub mod Drained
pub mod Memory
mod Tests
