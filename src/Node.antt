-- ===== src/Node.antt =====
-- The data plane of a node (pkg/node).
pub mod RateLimit
pub mod GlobalRules
pub mod AntiReplay
pub mod Approval
pub mod Rules
pub mod Listener
pub mod Cleanup
pub mod Health
