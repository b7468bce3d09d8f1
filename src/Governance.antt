-- ===== src/Governance.antt =====
-- shared/governance.py: approval tiers, approval gates, rate limits and the audit log.
pub mod Tiers
pub mod Gates
pub mod Lawful
pub mod Decide
pub mod Reachable
pub mod Votes
pub mod Limits
