-- ===== src/Node/Rules.antt =====
-- pkg/node/rules.go: whether a rule matches a connection.
pub mod Regexes
pub mod Texts
pub mod Times
pub mod Matching
pub mod Verdicts
mod Examples
