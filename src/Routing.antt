-- ===== src/Routing.antt =====
-- internal/routing/router.go: provider eligibility, load balancing and leases. A router's entries
-- are its list of providers, and the pointer of a lease to its entry is an index into that list.
-- Selection and release are steps of one goroutine each, in the order in which they happen.
pub mod Strategy
pub mod Entry
pub mod Order
pub mod Select
pub mod Lease
pub mod Prices
pub mod Sorted
pub mod Rotation
pub mod Eligible
pub mod Load
pub mod Balance
pub mod Session
pub mod Settings
mod Tests
