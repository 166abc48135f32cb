-- ===== src/Actions.antt =====
-- aegis/actions: the action service, through which every write of the platform goes.
pub mod Ontology
pub mod Store
pub mod Monad
pub mod Gate
pub mod Cases
pub mod Evidence
pub mod Anchors
pub mod Claims
pub mod Effects
pub mod Related
pub mod Access
pub mod Relating
pub mod Suggestions
pub mod Review
pub mod Adjudicate
pub mod Recorded
pub mod Sound
pub mod Lawful
pub mod Reviewed
pub mod Settled
pub mod Submitted
pub mod Adjudicated
pub mod Steps
pub mod Logged
pub mod Chains
pub mod Gated
pub mod Raced
mod Tests
