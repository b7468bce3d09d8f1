-- ===== src/Enroller.antt =====
-- agents/top_of_funnel/sequence_enroller.py: enrolling leads under the daily limit.
pub mod Leads
pub mod Default
use loop_revops_agents.Base.{
  ℕ, ◌+◌, String, Bool, true, false, Option, none, some, List, [], ◌∷◌, ◌++◌, not, length, str_eq,
  if◌then◌else◌,
}
use loop_revops_agents.World.{
  World, Error, Env, Result, ok, err, M, pure, raise, or_raise, raise_if, ◌>>=◌, ◌>>◌,
  rate_limit_exceeded,
}
use loop_revops_agents.World.Values.{Json, Fields, null, text, end, field, get, or_else}
use loop_revops_agents.World.Rows.{
  Status, pending, Enrollment, EnrollmentStatus, enrolled, failed, rate_limited, Gate,
}
use loop_revops_agents.Governance.Gates.{
  require_approved_gate, get_approval_gate, decide_approval_gate, is_pending,
}
use loop_revops_agents.Governance.Limits.{check_rate_limit}
use loop_revops_agents.Salesforce.{create_record}
use loop_revops_agents.Dispatcher.{config_with}

abbrev pub rate_bucket : String
rate_bucket = "nooks_sequences_daily"

abbrev pub gate_action : String
gate_action = "outbound_sequence"

-- `get_config("NOOKS_CADENCE_SF_OBJECT") or "CampaignMember"`
unfoldable pub cadence_sobject : (String → Option String) → String
cadence_sobject config =
    let name = config_with config "NOOKS_CADENCE_SF_OBJECT" "" in
    if str_eq name "" then "CampaignMember" else name

-- What is the same for all leads of a batch.
pub record Batch : Type 0 where
  pub sequence_id : String
  pub sobject : String
  pub gate_id : ℕ
  -- `create_fn`
  pub create : String → Fields → M Fields

abbrev pub lead_fields : Batch → String → Fields
lead_fields b lead_id = field "LeadId" (text lead_id) (
    field "SequenceId__c" (text b.sequence_id) (
      if str_eq b.sobject "CampaignMember"
      then field "CampaignId" (text b.sequence_id) end
      else end))

unfoldable pub record_enrollment : Batch → ℕ → String → Json → EnrollmentStatus → M (Unit {0})
record_enrollment b now lead_id sf_record_id status w = (
  ok tt,
  record w {
    enrollments =
        w.enrollments
        ++ record {
          lead_id = lead_id;
          sequence_id = b.sequence_id;
          sf_record_id = sf_record_id;
          sf_object = b.sobject;
          approval_gate_id = b.gate_id;
          enrolled_at = now;
          status = status;
        }
          ∷ [];
  },
)

pub record Report : Type 0 where
  pub enrolled_leads : List (String × Json)
  pub failed_leads : List (String × Error)
  pub rate_limit_hit : Bool

abbrev pub empty_report : Bool → Report
empty_report hit = record { enrolled_leads = []; failed_leads = []; rate_limit_hit = hit }

-- The report of one more lead, in front of that of the leads after it.
abbrev pub add_enrolled : String → Json → Result Report → Result Report
add_enrolled lead_id sf_id (ok r) =
    ok (record r { enrolled_leads = (lead_id, sf_id) ∷ r.enrolled_leads })
add_enrolled lead_id sf_id (err e) = err e

abbrev pub add_failed : String → Error → Result Report → Result Report
add_failed lead_id e (ok r) = ok (record r { failed_leads = (lead_id, e) ∷ r.failed_leads })
add_failed lead_id e (err x) = err x

-- `result.get("id") or result.get("Id")`
abbrev pub sf_id_of : Fields → Json
sf_id_of d = or_else (get "id" d) (get "Id" d)

-- A lead after the call of `create`, with the rest of the loop.
abbrev pub after_create :
    Batch → ℕ → String → M Report → Result Fields × World → Result Report × World
after_create b now lead_id rest (err e, w) =
    let (_, w') = record_enrollment b now lead_id null failed w in
    let (report, w'') = rest w' in (add_failed lead_id e report, w'')
after_create b now lead_id rest (ok result, w) =
    let (_, w') = record_enrollment b now lead_id (sf_id_of result) enrolled w in
    let (report, w'') = rest w' in (add_enrolled lead_id (sf_id_of result) report, w'')

-- A lead after the check of the limit, with the rest of the loop.
abbrev pub after_check : Batch → ℕ → String → M Report → Result ℕ × World → Result Report × World
after_check b now lead_id rest (err rate_limit_exceeded, w) =
    let (_, w') = record_enrollment b now lead_id null rate_limited w in
    (ok (empty_report true), w')
after_check b now lead_id rest (err e, w) = (err e, w)
after_check b now lead_id rest (ok _, w) =
    after_create b now lead_id rest (b.create b.sobject (lead_fields b lead_id) w)

-- The loop, over the leads with the clock at which each is reached.
unfoldable pub enroll_leads : Batch → List (ℕ × String) → M Report
enroll_leads b [] w = (ok (empty_report false), w)
enroll_leads b ((now, lead_id) ∷ leads) w =
    after_check b now lead_id (enroll_leads b leads) (check_rate_limit now rate_bucket 86400 none w)

-- `_default_create`
abbrev pub default_create : Env → ℕ → String → Fields → M Fields
default_create env gate_id sobject fields =
    create_record env sobject fields "top_of_funnel" (some gate_id)

unfoldable pub enroll_batch :
    Env → List (ℕ × String) → String → ℕ → Option (String → Fields → M Fields) → M Report
unfolding enroll_leads cadence_sobject
enroll_batch env leads sequence_id gate_id create_fn = do
  require_approved_gate (some gate_id) gate_action
  enroll_leads
      (record {
        sequence_id = sequence_id;
        sobject = cadence_sobject env.config;
        gate_id = gate_id;
        create = elim create_fn [ none ↦ default_create env gate_id | some create ↦ create ];
      })
      leads

-- The four replies of `approve_queue`.
pub data QueueReply : Type 0 where
  gate_not_found wrong_gate not_pending approved_gate : QueueReply

abbrev approve_found : ℕ → ℕ → String → Option Gate → M QueueReply
approve_found now gate_id approver none = pure gate_not_found
approve_found now gate_id approver (some gate) =
    if not (str_eq gate.action_type gate_action)
    then pure wrong_gate
    else if not (is_pending gate.status)
    then pure not_pending
    else (decide_approval_gate now gate_id true approver >> pure approved_gate)

unfoldable pub approve_queue : ℕ → ℕ → String → M QueueReply
unfolding decide_approval_gate
approve_queue now gate_id approver = do
  found ← get_approval_gate gate_id
  approve_found now gate_id approver found
