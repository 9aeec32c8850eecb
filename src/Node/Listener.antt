-- ===== src/Node/Listener.antt =====
-- pkg/node/listener.go: the proxy listener, part by part.
pub mod Table
pub mod Priority
pub mod Decision
pub mod Ending
pub mod Oversight
pub mod Leftovers
pub mod Traffic
pub mod Status
mod Examples
