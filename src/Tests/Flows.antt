-- ===== src/Tests/Flows.antt =====
-- The theorems on Salesforce, Slack, the poller and the churn flow, at concrete inputs.
use loop_revops_agents.Base.{
  ◌≤◌, ◌<◌, ◌≡◌, ◌≢◌, ◌⊎◌, refl, true, false, some, [], ◌∷◌, ◌++◌, str_ne,
}
use loop_revops_agents.Base.Table.{find_id}
use loop_revops_agents.World.{
  World, Error, Refusal, ok, err, update_call, merge_call, approval_required, cooling_down,
}
use loop_revops_agents.World.Values.{Json, text, number, field, end}
use loop_revops_agents.World.Rows.{Gate, pending, approved, approved_primary}
use loop_revops_agents.Governance.Gates.{decide_approval_gate}
use loop_revops_agents.Salesforce.{update_record, merge_records}
use loop_revops_agents.Salesforce.Gated.{
  Permits, merge_action, update_record_gated, merge_records_gated,
}
use loop_revops_agents.Dispatcher.{handle_gate_decision, channel_for, config_with, send}
use loop_revops_agents.Dispatcher.Buttons.{button_waits}
use loop_revops_agents.Base.Texts.{strip, trim_left, lower}
use loop_revops_agents.Dispatcher.{canonical}
use loop_revops_agents.Dispatcher.Commands.{dispatch, drop_mentions}
use loop_revops_agents.Dispatcher.Guard.{guarded_send, channel_for_lem}
use loop_revops_agents.Cooldown.{find_ready_primaries, poll}
use loop_revops_agents.Cooldown.Elevate.{pairs, children}
use loop_revops_agents.Cooldown.Idempotent.{poll_once}
use loop_revops_agents.Cs.{Checked, finalize_mark_churned, finalize_csm_reassignment, write_churned}
use loop_revops_agents.Cs.Churned.{Agreed, finalize_mark_churned_lem}
use loop_revops_agents.Cs.Refused.{churn_never_marked, owner_never_changed}
use loop_revops_agents.Tests.{env, world_of, gate_row, vote}

abbrev single_gate : Gate
single_gate = gate_row 1 "single_record_update" approved (vote "o" ∷ []) end

abbrev single_world : World
single_world = world_of (single_gate ∷ []) []

abbrev stage : Json
stage = text "006xx"

update_record_gated_example :
    ((why : Refusal) × (update_record env "Opportunity" stage end "cs" (some 1) single_world
        ≡ (err (approval_required why), single_world)))
    ⊎ (Permits single_world (some 1) "single_record_update"
        × ((update_record env "Opportunity" stage end "cs" (some 1) single_world).1.calls
            ≡ [] ++ update_call "Opportunity" stage end ∷ []))
update_record_gated_example =
    update_record_gated env "Opportunity" stage end "cs" (some 1) single_world

merge_records_gated_example :
    ((e : Error) × (merge_records env "Account" "001a" ("001b" ∷ []) "cs" (some 1) single_world
        ≡ (err e, single_world)))
    ⊎ (Permits single_world (some 1) (merge_action "Account")
        × ((1 ≤ 1) × (1 ≤ 2))
        × ((merge_records env "Account" "001a" ("001b" ∷ []) "cs" (some 1) single_world).1.calls
            ≡ [] ++ merge_call "Account" "001a" ("001b" ∷ []) ∷ []))
merge_records_gated_example =
    merge_records_gated env "Account" "001a" ("001b" ∷ []) "cs" (some 1) single_world

abbrev cooling_gate : Gate
cooling_gate = record (gate_row 1 "sf_schema_delete" approved_primary (vote "o" ∷ []) end) {
  decided_at = some 5;
  cooldown_until = some 100;
}

abbrev confirm_gate : Gate
confirm_gate = record (gate_row 2 "sf_schema_delete_confirm" pending [] end) {
  parent_gate_id = some 1;
}

abbrev cooling_world : World
cooling_world = world_of (cooling_gate ∷ confirm_gate ∷ []) []

button_waits_example :
    (50 < 100
      → handle_gate_decision 50 2 true "o" cooling_world
        ≡ (err (approval_required cooling_down), cooling_world))
    × (100 ≤ 50
        → handle_gate_decision 50 2 true "o" cooling_world
          ≡ decide_approval_gate 50 2 true "o" cooling_world)
    × (handle_gate_decision 50 2 false "o" cooling_world
        ≡ decide_approval_gate 50 2 false "o" cooling_world)
unfolding find_id
button_waits_example =
    button_waits 50 2 1 100 "o" cooling_world confirm_gate cooling_gate refl refl refl refl

channel_for_lem_example :
    (config_with env.config "SLACK_DEV_GUARD" "1" ≡ "1"
      → config_with env.config "SLACK_TEST_CHANNEL" "" ≢ ""
      → channel_for env.config (text "#general")
        ≡ text (config_with env.config "SLACK_TEST_CHANNEL" ""))
    × (config_with env.config "SLACK_DEV_GUARD" "1" ≢ "1"
        → channel_for env.config (text "#general") ≡ text "#general")
    × (config_with env.config "SLACK_TEST_CHANNEL" "" ≡ ""
        → channel_for env.config (text "#general") ≡ text "#general")
channel_for_lem_example = channel_for_lem env.config (text "#general")

guarded_send_example :
    ((send env (text "#general") (some 2) cooling_world).1.sent ≡ [])
    ⊎ ((send env (text "#general") (some 2) cooling_world).1.sent
        ≡ [] ++ record { channel = text "C0TEST"; gate_id = some 2 } ∷ [])
guarded_send_example =
    guarded_send env (text "#general") (some 2) cooling_world refl (str_ne "C0TEST" "" refl)

-- A mention, the prefix and the persona are read in any case; what names no agent goes to `oo`.
persona_command :
    dispatch ("cs" ∷ "oo" ∷ []) " <@U01> OO Supporter  open cases " ≡ some ("cs", "open cases")
unfolding dispatch canonical strip trim_left lower drop_mentions
persona_command = refl

plain_command : dispatch ("cs" ∷ "oo" ∷ []) "<@U01> what <@ is new" ≡ some ("oo", "what <@ is new")
unfolding dispatch canonical strip trim_left lower drop_mentions
plain_command = refl

abbrev cooled_world : World
cooled_world = world_of (cooling_gate ∷ []) []

poll_once_example :
    (v : World) × (poll env 200 cooled_world
      ≡ (ok (pairs 200 (find_ready_primaries 200 cooled_world) cooled_world.gates), v))
    × (v.gates
        ≡ cooled_world.gates
          ++ children 200 (find_ready_primaries 200 cooled_world) cooled_world.gates)
    × (find_ready_primaries 200 v ≡ [])
    × (poll env 200 v ≡ (ok [], v))
poll_once_example = poll_once env 200 cooled_world

abbrev churn_world : World
churn_world =
    world_of
      (gate_row 1 "mark_churned_request" approved (vote "hutch" ∷ [])
          (field "account_id" (text "001a") end)
        ∷ gate_row 2 "mark_churned_confirm" approved (vote "jackie" ∷ [])
            (field "parent_gate_id" (number 1) (field "account_id" (text "001a") end))
        ∷ [])
      []

finalize_mark_churned_lem_example :
    ((e : Error) × (finalize_mark_churned (update_record env) 2 "o" churn_world
        ≡ (err e, churn_world)))
    ⊎ ((c : Checked) × (a : Gate) × Agreed 2 c a churn_world
        × (finalize_mark_churned (update_record env) 2 "o" churn_world
            ≡ write_churned (update_record env) 2 "o" c churn_world))
finalize_mark_churned_lem_example = finalize_mark_churned_lem (update_record env) 2 "o" churn_world

churn_never_marked_example :
    (e : Error) × (finalize_mark_churned (update_record env) 2 "o" churn_world
      ≡ (err e, churn_world))
churn_never_marked_example = churn_never_marked env 2 "o" churn_world

abbrev owner_world : World
owner_world =
    world_of
      (gate_row 1 "csm_reassignment" approved (vote "jackie" ∷ [])
          (field "account_id" (text "001a") (field "new_owner_id" (text "005b") end))
        ∷ [])
      []

owner_never_changed_example :
    (e : Error) × (finalize_csm_reassignment (update_record env) 1 "o" owner_world
      ≡ (err e, owner_world))
owner_never_changed_example = owner_never_changed env 1 "o" owner_world
