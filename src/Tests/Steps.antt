-- ===== src/Tests/Steps.antt =====
-- The theorems on the whole system and on suppression, at concrete inputs.
use loop_revops_agents.Base.{ℕ, ◌≡◌, ◌≢◌, String, true, false, some}
use loop_revops_agents.Base.{[], ◌∷◌, none, arith, refl, str_eq, if◌then◌else◌}
use loop_revops_agents.Base.Texts.{after_at, strip, lower}
use loop_revops_agents.Suppression.{Store, add_manual, is_suppressed, has_at, email_key}
use loop_revops_agents.Suppression.Cached.{add_manual_kept}
use loop_revops_agents.World.{World, ok}
use loop_revops_agents.World.Values.{end}
use loop_revops_agents.World.Rows.{Gate, approved, pending}
use loop_revops_agents.Governance.Gates.{
  Request, create_approval_gate, decide_approval_gate, require_approved_gate, any_reject, has_yes,
}
use loop_revops_agents.Governance.Lawful.{gate_at, AllLawful}
use loop_revops_agents.System.{Reach, here, next, opened, voted, initial}
use loop_revops_agents.System.Lawful.{system_safe}
use loop_revops_agents.Base.Table.{find_id}
use loop_revops_agents.System.Settled.{Stays, settled-Stays}
use loop_revops_agents.System.Every.{flow_steps, after, poll_cooldowns}
use loop_revops_agents.Tests.{env, gate_row, vote, world_of}

abbrev request : Request
request = record {
  agent_name = "revops_support";
  action_type = "sf_schema_delete";
  payload = end;
  justification = some "the field is unused";
  requested_by = "o";
  ttl_hours = 24;
}

abbrev first_world : World
first_world = (create_approval_gate 0 request initial).1

abbrev second_world : World
second_world = (decide_approval_gate 1 1 true "o" first_world).1

two_steps : Reach env initial second_world
two_steps = next (next here (opened 0 request initial)) (voted 1 1 true "o" first_world)

system_safe_example :
    ((k : ℕ) (g : Gate)
      → require_approved_gate (some k) "sf_schema_delete" second_world ≢ (ok g, second_world))
    × ((k : ℕ) (g : Gate)
        → gate_at k second_world ≡ some g
        → g.action_type ≡ "mark_churned"
        → g.status ≡ approved
        → (any_reject g.approvals ≡ false)
          × ((a b : String) × (a ≢ b)
              × (has_yes a g.approvals ≡ true)
              × (has_yes b g.approvals ≡ true)))
system_safe_example = system_safe env second_world two_steps

approved_ne_pending : approved ≢ pending
approved_ne_pending h = absurd (cc)

abbrev decided : Gate
decided = gate_row 1 "account_merge" approved (vote "hutch" ∷ []) end

abbrev decided_world : World
decided_world = world_of (decided ∷ []) []

-- A later vote against the gate.
settled-Stays_example : Stays 1 decided (decide_approval_gate 9 1 false "jackie" decided_world).1
unfolding find_id
settled-Stays_example =
    settled-Stays env 1 decided approved_ne_pending refl
      (next here (voted 9 1 false "jackie" decided_world))

flow_steps_example :
    Reach env second_world (after env (poll_cooldowns 200000000000) second_world)
    × (AllLawful second_world → AllLawful (after env (poll_cooldowns 200000000000) second_world))
flow_steps_example = flow_steps env (poll_cooldowns 200000000000) second_world

abbrev store : Store
store = record { cache = []; world = initial }

kept_at : has_at (email_key (some " A@x.io")) ≡ true
unfolding has_at after_at strip lower
kept_at = refl

add_manual_kept_example :
    let s = (add_manual 5 (some " A@x.io") "" store).1 in
    is_suppressed 500 7 (some " A@x.io") none none [] s ≡ (
      record {
        suppressed = true;
        reason = if str_eq "" "" then "manual" else "";
        source = "manual";
      },
      s,
    )
add_manual_kept_example =
    add_manual_kept 5 500 7 (some " A@x.io") none "" none [] store kept_at (omega arith)
