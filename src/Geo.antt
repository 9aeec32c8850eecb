-- ===== src/Geo.antt =====
-- pkg/geoip: the lookup of addresses.
pub mod Cache
pub mod Manager
pub mod Answers
pub mod Lookups
mod Examples
