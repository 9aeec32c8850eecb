-- ===== src/Hub.antt =====
-- pkg/hub: the server that relays between nodes and phones.
pub mod RateLimit
pub mod Auth
pub mod Commands
pub mod Pairing
pub mod Proxies
pub mod Access
pub mod Attempts
