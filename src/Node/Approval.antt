-- ===== src/Node/Approval.antt =====
-- pkg/node/approval.go: the approval of connections by a person, with its cache of decisions.
pub mod Key
pub mod Cache
pub mod Manager
