-- ===== src/Agent.antt =====
-- internal/agent: the policy that decides which destinations an Agent connects to.
pub mod Policy
