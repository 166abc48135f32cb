-- ===== src/Audit.antt =====
-- aegis/audit/chain.py: the append-only audit hash chain.
pub mod Log
pub mod Chain
pub mod Appends
pub mod Tamper
mod Tests
