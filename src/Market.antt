-- ===== src/Market.antt =====
-- The marketplace: service requests, and the applications of handymen for them.
pub mod Customer
pub mod Handyman
pub mod Effects
pub mod Race
pub mod Others
pub mod OtherJobs
pub mod Once
pub mod Stale
pub mod Outcomes
mod Tests
