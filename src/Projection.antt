-- ===== src/Projection.antt =====
-- aegis/projections/edges.py: the time-segmented edge projection.
pub mod Store
pub mod Support
pub mod Segments
pub mod Groups
pub mod Build
pub mod Stamps
pub mod Edges
pub mod Relations
pub mod Staleness
mod Tests
