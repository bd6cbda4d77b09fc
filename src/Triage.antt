-- ===== src/Triage.antt =====
-- What is done with alerts once they are raised: the triage crate.
pub mod AuditChain
