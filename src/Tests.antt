-- ===== src/Tests.antt =====
-- Runs of the hub on small inputs.
pub mod World
pub mod Portals
pub mod Units
pub mod Client
pub mod Served
pub mod Hub
pub mod Changed
pub mod Started
pub mod Lives
pub mod Whole
pub mod Documents
pub mod Refused
pub mod Answered
pub mod Greeted
