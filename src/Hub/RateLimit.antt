-- ===== src/Hub/RateLimit.antt =====
-- pkg/hub/ratelimit: the limiters of the hub's calls, by address and by routing token.
pub mod Bucket
pub mod Address
pub mod Budget
pub mod Tiered
mod Examples
