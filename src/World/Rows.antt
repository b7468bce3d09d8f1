-- ===== src/World/Rows.antt =====
-- The rows of shared/db/schema.sql. A time is a number of microseconds since the epoch, in UTC.
use loop_revops_agents.Base.{ℕ, ◌*◌, String, Bool, Option, List}
use loop_revops_agents.World.Values.{Fields, Json}

abbrev pub hour : ℕ
hour = 3600000000

abbrev pub day : ℕ
day = 24 * hour

-- The four values of `approval_gates.status` that the code writes.
pub data Status : Type 0 where
  pending approved approved_primary rejected : Status

-- One entry of the JSON list in the column `approvals`.
pub record Decision : Type 0 where
  pub approver : String
  pub approved : Bool
  pub decided_at : ℕ

pub record Gate : Type 0 where
  pub id : ℕ
  pub agent_name : String
  pub action_type : String
  pub payload : Fields
  pub justification : Option String
  pub requested_by : String
  pub approved_by : Option String
  pub approvals : List Decision
  pub status : Status
  pub requested_at : ℕ
  pub decided_at : Option ℕ
  pub expires_at : ℕ
  pub cooldown_until : Option ℕ
  pub parent_gate_id : Option ℕ

-- The text of an audit row's `target`, by the f-string that makes it.
pub data Target : Type 0 where
  gate_target : ℕ → Target
  sobject_target : String → Target
  record_target : String → Json → Target
  slack_target : Json → Target
  plain_target : String → Target

pub record Audit : Type 0 where
  pub id : ℕ
  pub agent_name : String
  pub action : String
  pub target : Option Target
  pub before_value : Option Fields
  pub after_value : Option Fields
  pub approval_gate_id : Option ℕ
  pub rate_limit_bucket : Option String
  pub run_id : Option ℕ

-- A row of `rate_limits`.
pub record Rate : Type 0 where
  pub id : ℕ
  pub bucket : String
  pub count : ℕ
  pub window_start : ℕ
  pub limit_value : ℕ

-- A row of `tof_sequence_enrollments`, in the database of the top-of-funnel agent.
pub data EnrollmentStatus : Type 0 where
  enrolled failed rate_limited : EnrollmentStatus

pub record Enrollment : Type 0 where
  pub lead_id : String
  pub sequence_id : String
  pub sf_record_id : Json
  pub sf_object : String
  pub approval_gate_id : ℕ
  pub enrolled_at : ℕ
  pub status : EnrollmentStatus
