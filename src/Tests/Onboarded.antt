-- ===== src/Tests/Onboarded.antt =====
-- The theorems on the closed-won poller and on the run wrapper, at concrete inputs.
use loop_revops_agents.Base.{
  ◌*◌, ltb, if◌then◌else◌, ◌+◌, ◌≡◌, ◌≢◌, ◌≤◌, refl, ℕ, true, none, some, [], ◌∷◌, ◌++◌, length,
}
use loop_revops_agents.Base.Table.{next_id}
use loop_revops_agents.Base.Texts.{take_text}
use loop_revops_agents.World.{World, create_call, ok, err, M, salesforce_error, pure, type_error}
use loop_revops_agents.World.Values.{text, object, Fields, end, field, find_field, get, put}
use loop_revops_agents.Runs.{new_run, finished_run, run}
use loop_revops_agents.Runs.Closed.{row_at, run_lem}
use loop_revops_agents.Onboarding.Creator.{onboarding_fields, build_fields, account_name, overlaps}
use loop_revops_agents.Onboarding.ClosedWon.{
  Soql, created_field_exists, closed_won, Summary, strategy_a, self_request, created, process,
  detect_dedup_strategy, select_candidates, poll_closed_won,
}
use loop_revops_agents.Onboarding.Stalls.{
  count_days, business_days_between, recently_alerted, record_alert, same_key, alert_dedup_window,
}
use loop_revops_agents.Onboarding.Stalls.Alerted.{record_alert_lem}
use loop_revops_agents.Onboarding.Stalls.Weeks.{business_days_between_lem}
use loop_revops_agents.System.Gated.{process_gated}
use loop_revops_agents.Governance.Lawful.{gate_at}
use loop_revops_agents.World.Rows.{Gate, approved, hour}
use loop_revops_agents.Onboarding.Polled.{poll_closed_won_lem}
use loop_revops_agents.Tests.{message, env, empty_world}

abbrev opportunity : Fields
opportunity =
    field "Id" (text "006a") (
      field "Account" (object (field "Name" (text "Acme") end)) (field "OwnerId" (text "005a") end))

-- The opportunity was won, and nothing has an onboarding yet.
abbrev won : Soql
won _ created_field_exists = some (end ∷ [])
won _ (closed_won _ _) = some (opportunity ∷ [])
won _ _ = some []

abbrev acme_fields : Fields
acme_fields = onboarding_fields "Acme Onboarding" (text "006a") (text "005a")

process_gated_example :
    let call = create_call "Onboarding__c" acme_fields in
    let (r, v) = process env won 100 opportunity empty_world in
    (v.calls ≡ [] ++ call ∷ [])
    × (r ≡ elim (env.org [] call) [ none ↦ err salesforce_error | some _ ↦ ok created ])
    × (gate_at 1 empty_world ≡ none)
    × ((g : Gate) × (gate_at 1 v ≡ some g)
        × (g.status ≡ approved)
        × (g.action_type ≡ "single_record_update")
        × (g.payload ≡ (self_request opportunity (text "006a")).payload)
        × (g.approvals
            ≡ record { approver = "system:onboarding"; approved = true; decided_at = 100 } ∷ []))
unfolding build_fields account_name get find_field put overlaps next_id
process_gated_example =
    process_gated env won 100 opportunity acme_fields (text "006a") empty_world refl refl
      (λ v. refl)

poll_closed_won_lem_example :
    (s : Summary) × (v : World) × (poll_closed_won env won message 100 empty_world ≡ (ok s, v))
    × (s.candidates ≡ 1)
    × (s.created_count + s.skipped_count + length s.errors ≡ 1)
unfolding detect_dedup_strategy select_candidates find_field
poll_closed_won_lem_example =
    poll_closed_won_lem env won message 100 empty_world strategy_a (opportunity ∷ []) refl refl
      ((text "006a", refl), tt)

-- A handler whose result is not JSON.
abbrev opaque : M (Unit {0})
opaque = pure tt

run_lem_example :
    let (r, v) = run message (λ _. some none) "cs" "slack" (some "{}") 100 200 opaque empty_world in
    (r ≡ err type_error)
    × (row_at 1 v
        ≡ some (
            finished_run 200 "error" none
              (some "failed")
              (new_run "cs" "slack" (some "{}") "running" 100 1)))
    × ((j : ℕ) → j ≢ 1 → row_at j v ≡ row_at j empty_world)
unfolding next_id take_text
run_lem_example =
    run_lem message (λ _. some none) "cs" "slack" "{}" 100 200 opaque empty_world (λ v. refl)

-- From Monday, 13 April 2026 (the ordinal 739719), two weeks and three days are 13 business days.
business_days_between_lem_example :
    (business_days_between 739719 739736 ≡ 13) × (business_days_between 739719 739700 ≤ 0)
unfolding business_days_between count_days
business_days_between_lem_example = business_days_between_lem 739719 2 3 739700

-- A day after the first alert, for the same stage and for another.
record_alert_lem_example :
    (recently_alerted
        (24 * hour)
        "a01"
        "jk=Kickoff;overall=—"
        (record_alert 0 "a01" "jk=Kickoff;overall=—" [])
      ≡ (if same_key "a01" "jk=Kickoff;overall=—" "a01" "jk=Kickoff;overall=—"
          then ltb (24 * hour) (0 + alert_dedup_window)
          else recently_alerted (24 * hour) "a01" "jk=Kickoff;overall=—" []))
record_alert_lem_example =
    record_alert_lem 0 (24 * hour) "a01" "jk=Kickoff;overall=—" "a01" "jk=Kickoff;overall=—" []
