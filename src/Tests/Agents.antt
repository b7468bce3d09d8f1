-- ===== src/Tests/Agents.antt =====
-- The theorems on onboarding, enrolment, batches, routing and the schedule, at concrete inputs.
use loop_revops_agents.Base.{
  ℕ, ◌+◌, ◌*◌, ◌%◌, ◌≤◌, ◌≡◌, ◌≢◌, refl, String, true, false, none, some, List, [], ◌∷◌, ◌++◌,
  arith, length, All,
}
use loop_revops_agents.Base.Table.{find_id, next_id}
use loop_revops_agents.World.{
  World, create_call, Error, Env, ok, err, approval_required, wrong_action,
}
use loop_revops_agents.World.Values.{Fields, text, field, end, object, flag, find_field, get, put}
use loop_revops_agents.World.Rows.{approved, day}
use loop_revops_agents.Governance.Tiers.{tier_of, limit_of, is_soft_bucket, classify_bulk_update}
use loop_revops_agents.Governance.Gates.{create_approval_gate, require_approved_gate}
use loop_revops_agents.Governance.Limits.{
  find_rate, window_of, check_rate_limit, count_call, resolved_mode,
}
use loop_revops_agents.Governance.Limits.Count.{count_at}
use loop_revops_agents.Salesforce.{create_record}
use loop_revops_agents.Salesforce.Gated.{Permits}
use loop_revops_agents.Dispatcher.{send, channel_for}
use loop_revops_agents.Onboarding.{apply_reassignment, sweep}
use loop_revops_agents.Onboarding.Sweep.{reassignment_refused, sweep-lengths}
use loop_revops_agents.Enroller.{Batch, Report, record_enrollment, enroll_leads, enroll_batch}
use loop_revops_agents.Enroller.Leads.{enroll_leads_lem, Promise}
use loop_revops_agents.Enroller.Default.{nobody_enrolled}
use loop_revops_agents.Bulk.{Ports, BulkUpdateResult, run_batch, rate_bucket}
use loop_revops_agents.Bulk.Batch.{batch_written, requests, noted, run_of}
use loop_revops_agents.Base.Slices.{flat}
use loop_revops_agents.Routing.{
  ent, mm, pos, Router, Territory, classify_segment, ready_router, assign_owner, next_index,
}
use loop_revops_agents.Routing.Rotation.{Chosen, turn, turn_lem, assign_owner_lem}
use loop_revops_agents.Tests.{env, world_of, empty_world, gate_row, vote}

abbrev owner_world : World
owner_world =
    world_of
      (gate_row 1 "csm_reassignment" approved (vote "jackie" ∷ [])
          (field "onboarding_id" (text "a01") end)
        ∷ [])
      []

reassignment_refused_example :
    (e : Error) × (apply_reassignment env 1 "005b" "jackie" owner_world ≡ (err e, owner_world))
reassignment_refused_example = reassignment_refused env 1 "005b" "jackie" owner_world

abbrev sweep_rows : List Fields
sweep_rows = field "Id" (text "a01") end ∷ field "Id" (text "a02") end ∷ []

abbrev swept : World
swept = (sweep env 7 sweep_rows empty_world).1

sweep_runs : sweep env 7 sweep_rows empty_world ≡ (ok 2, swept)
unfolding sweep create_approval_gate send tier_of find_field channel_for
sweep_runs = refl

sweep-lengths_example :
    (◌≡◌ {A = ℕ} 2 2) × (length swept.gates ≡ 0 + 2) × (length swept.sent ≡ 0 + 2)
sweep-lengths_example = sweep-lengths env 7 sweep_rows empty_world swept 2 sweep_runs

abbrev batch : Batch
batch = record {
  sequence_id = "701x";
  sobject = "CampaignMember";
  gate_id = 1;
  create = λ sobject fields w. (
    ok (field "id" (text "00v") end),
    record w { calls = w.calls ++ create_call sobject fields ∷ [] },
  );
}

abbrev leads : List (ℕ × String)
leads = (100 * day, "00Qa") ∷ (100 * day + 9, "00Qb") ∷ []

enroll_leads_lem_example :
    Promise batch leads (100 * day) empty_world (enroll_leads batch leads empty_world)
unfolding find_rate window_of
enroll_leads_lem_example =
    enroll_leads_lem batch (100 * day) (λ _ _ _. (refl, refl)) leads empty_world tt (omega arith)
      (refl, (refl, tt))

abbrev sequence_world : World
sequence_world = world_of (gate_row 1 "outbound_sequence" approved (vote "hutch" ∷ []) end ∷ []) []

abbrev enrolled_world : World
enrolled_world = (enroll_batch env leads "701x" 1 none sequence_world).1

abbrev failed_report : Report
failed_report = record {
  enrolled_leads = [];
  failed_leads =
      ("00Qa", approval_required wrong_action) ∷ ("00Qb", approval_required wrong_action) ∷ [];
  rate_limit_hit = false;
}

enroll_runs :
    enroll_batch env leads "701x" 1 none sequence_world ≡ (ok failed_report, enrolled_world)
unfolding enroll_batch require_approved_gate find_id check_rate_limit limit_of resolved_mode
    is_soft_bucket count_call find_rate create_record record_enrollment window_of
enroll_runs = refl

nobody_enrolled_example :
    (failed_report.enrolled_leads ≡ []) × (enrolled_world.calls ≡ sequence_world.calls)
nobody_enrolled_example =
    nobody_enrolled env leads "701x" 1 sequence_world enrolled_world failed_report enroll_runs

abbrev ports : Ports
ports = record {
  soql = λ _ _ _. some (field "Id" (text "001a") (field "Name" (text "old") end) ∷ []);
  display = λ _. some (
      object (
        field "result"
          (object
            (field "accessToken" (text "00D") (field "instanceUrl" (text "https://x.my/") end)))
          end));
  http_patch =
      λ _ _ _. some (record { status_code = 200; body = field "success" (flag true) end ∷ [] });
}

abbrev write_env : Env
write_env = record env { config = λ _. some "write_org" }

abbrev updates : List Fields
updates = field "Id" (text "001a") (field "Name" (text "new") end) ∷ []

abbrev bulk_world : World
bulk_world = world_of (gate_row 1 "single_record_update" approved (vote "o" ∷ []) end ∷ []) []

abbrev written_world : World
written_world =
    (run_batch write_env ports 9 "revops_support" "Account" updates 1 false bulk_world).1

abbrev written_result : BulkUpdateResult
written_result = record {
  sobject = "Account";
  total = 1;
  success = 1;
  failures = [];
  audit_ids = 1 ∷ [];
  before_snapshot = field "001a" (object (field "Name" (text "old") end)) end;
}

batch_runs :
    run_batch write_env ports 9 "revops_support" "Account" updates 1 false bulk_world
    ≡ (ok written_result, written_world)
unfolding run_batch get require_approved_gate find_id classify_bulk_update check_rate_limit limit_of
    resolved_mode is_soft_bucket count_call find_rate next_id put
batch_runs = refl

batch_written_example :
    Permits bulk_world (some 1) (classify_bulk_update 1)
    × (written_result.total ≡ 1)
    × (count_at rate_bucket (window_of 9 86400) written_world
        ≡ count_at rate_bucket (window_of 9 86400) bulk_world + 1)
    × ((before : Fields) × (auth : String × String) × (chunks : List (List Fields))
        × (written_world.calls ≡ [] ++ requests "Account" auth.1 chunks)
        × (flat chunks ≡ updates)
        × All (λ c. length c ≤ 200) chunks
        × (length written_result.audit_ids ≡ length chunks)
        × (written_world.audit
            ≡ []
              ++ noted
                  (run_of "revops_support" "Account" 1 before auth)
                  0
                  chunks
                  written_result.audit_ids))
batch_written_example =
    batch_written write_env ports 9 "revops_support" "Account" updates 1 bulk_world written_world
      written_result tt batch_runs

abbrev router : Router
router = record {
  cache =
      record {
        email = "sdr@tryloop.ai";
        user_id = "005a";
        name = none;
        is_active = true;
        cached_at = 0;
      }
      ∷ [];
  rotation = λ _. some 1;
}

abbrev territory : Territory
territory = record {
  rotation = λ _. record { email = some " SDR@tryloop.ai"; slack_id = none } ∷ [];
  default_owner_id = none;
}

assign_owner_lem_example :
    Chosen 5 territory
      (classify_segment (some (pos 60)))
      (ready_router 5 true none router)
      (assign_owner 5 (some (pos 60)) territory true none router)
assign_owner_lem_example = assign_owner_lem 5 (some (pos 60)) territory true none router

mm_ne_ent : mm ≢ ent
mm_ne_ent h = absurd (cc)

turn_lem_example :
    (turn 4 ent 3 router ≡ (1 + 1 + 4) % 3)
    × ((next_index ent 3 router).1.rotation mm ≡ router.rotation mm)
turn_lem_example = turn_lem 4 2 1 ent mm router refl mm_ne_ent
