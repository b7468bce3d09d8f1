-- ===== src/World/Runs.antt =====
-- The rows of agent_runs and tasks in shared/db/schema.sql. The columns for the duration, the
-- tokens and the cost of a run are left out.
use loop_revops_agents.Base.{ℕ, String, Option}

pub record Run : Type 0 where
  pub id : ℕ
  pub agent_name : String
  pub trigger : String
  pub input : Option String
  pub status : String
  pub started_at : ℕ
  pub completed_at : Option ℕ
  pub output : Option String
  pub error_message : Option String

pub record Task : Type 0 where
  pub id : ℕ
  pub agent_name : String
  pub title : String
  pub status : String
  pub priority : String
  pub category : String
  pub source : String
  pub assignee : String
