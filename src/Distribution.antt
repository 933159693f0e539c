-- ===== src/Distribution.antt =====
-- Which server a key goes to.
pub mod State
pub mod HostKey
pub mod Sort
pub mod Continuum
pub mod Dispatch
pub mod Search
pub mod Order
pub mod Ring
pub mod Points
pub mod Update
pub mod Rebuild
pub mod Routing
pub mod Shift
pub mod Plain
pub mod Members
pub mod Adding
pub mod Ejecting
pub mod Target
pub mod Servers
pub mod Joining
pub mod Buckets
mod Tests
