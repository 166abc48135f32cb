-- ===== src/Actions/Access.antt =====
-- Who holds what: the tables of case members, evidence and custody against the authorization store.
pub mod Members
pub mod Changed
pub mod Custody
pub mod Custodians
pub mod Wanted
pub mod Queue
pub mod Granting
pub mod Handing
pub mod Granted
pub mod Synced
