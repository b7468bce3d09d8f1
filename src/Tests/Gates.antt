-- ===== src/Tests/Gates.antt =====
-- The theorems on gates and on limits, at concrete rows.
use loop_revops_agents.Base.{
  ℕ, ◌+◌, ◌*◌, ◌%◌, ◌⊎◌, ◌≤◌, ◌<◌, ◌≡◌, ◌↔◌, min, refl, String, true, false, none, some, [], ◌∷◌,
  arith, if◌then◌else◌, ◌&&◌, ◌==◌, str_eq,
}
use loop_revops_agents.Base.Table.{find_id}
use loop_revops_agents.World.{World, Refusal, ok, err, approval_required}
use loop_revops_agents.World.Values.{end}
use loop_revops_agents.World.Rows.{Gate, Rate, pending, approved, day}
use loop_revops_agents.Governance.Tiers.{tier_of, is_dual, cooldown_of, limit_of, is_soft_bucket}
use loop_revops_agents.Governance.Gates.{
  Request, create_approval_gate, decide_approval_gate, require_approved_gate,
}
use loop_revops_agents.Governance.Lawful.{gate_at, AllLawful}
use loop_revops_agents.Governance.Reachable.{decide-AllLawful, create-AllLawful}
use loop_revops_agents.Governance.Votes.{require_lem, one_vote_approves, approved_by_one}
use loop_revops_agents.Governance.Limits.{window_of, resolved_mode, count_call, find_rate}
use loop_revops_agents.Governance.Limits.Count.{count_at, IsKeyed, admitted_call}
use loop_revops_agents.Governance.Limits.Budget.{window_bounds, budget, call_each}
use loop_revops_agents.Tests.{empty_world, world_of, gate_row, vote}

abbrev request : String → Request
request action = record {
  agent_name = "cs";
  action_type = action;
  payload = end;
  justification = some "the contract has ended";
  requested_by = "hutch";
  ttl_hours = 24;
}

empty-AllLawful : AllLawful empty_world
unfolding find_id
empty-AllLawful k g h = absurd (cc)

-- A world with one pending gate.
abbrev opened : String → World
opened action = (create_approval_gate 0 (request action) empty_world).1

opened-AllLawful : (action : String) → AllLawful (opened action)
opened-AllLawful action = create-AllLawful 0 (request action) empty_world empty-AllLawful

decide-AllLawful_example :
    AllLawful (decide_approval_gate 5 1 true "jackie" (opened "mark_churned")).1
decide-AllLawful_example =
    decide-AllLawful 5 1 true "jackie" (opened "mark_churned") (opened-AllLawful "mark_churned")

abbrev churned_gate : Gate
churned_gate = gate_row 1 "mark_churned" approved (vote "jackie" ∷ vote "o" ∷ []) end

abbrev merge_gate : Gate
merge_gate = gate_row 1 "contact_merge" pending [] end

merge_found : gate_at 1 (world_of (merge_gate ∷ []) []) ≡ some merge_gate
unfolding find_id
merge_found = refl

merge_single : is_dual (tier_of "contact_merge") ≡ false
unfolding tier_of
merge_single = refl

merge_uncooled : cooldown_of (tier_of "contact_merge") ≡ none
unfolding tier_of
merge_uncooled = refl

one_vote_approves_example :
    let w = (decide_approval_gate 9 1 true "anyone" (world_of (merge_gate ∷ []) [])).1 in
    require_approved_gate (some 1) "contact_merge" w
    ≡ (ok (approved_by_one 9 "anyone" merge_gate), w)
one_vote_approves_example =
    one_vote_approves 9 1 "anyone" (world_of (merge_gate ∷ []) []) merge_gate merge_found refl
      merge_single merge_uncooled

require_lem_example :
    ((k : ℕ) (g : Gate)
      → (require_approved_gate (some k) "mark_churned" (world_of (churned_gate ∷ []) [])
          ≡ (ok g, world_of (churned_gate ∷ []) []))
        ↔ ((gate_at k (world_of (churned_gate ∷ []) []) ≡ some g)
            × (g.status ≡ approved)
            × (g.action_type ≡ "mark_churned")))
    × (((g : Gate) × (require_approved_gate
              (some 1)
              "mark_churned"
              (world_of (churned_gate ∷ []) [])
            ≡ (ok g, world_of (churned_gate ∷ []) [])))
        ⊎ ((why : Refusal) × (require_approved_gate
                (some 1)
                "mark_churned"
                (world_of (churned_gate ∷ []) [])
              ≡ (err (approval_required why), world_of (churned_gate ∷ []) []))))
require_lem_example = require_lem (some 1) "mark_churned" (world_of (churned_gate ∷ []) [])

abbrev rate_row : Rate
rate_row = record {
  id = 1;
  bucket = "nooks_sequences_daily";
  count = 49;
  window_start = 100 * day;
  limit_value = 50;
}

nooks_limit : limit_of "nooks_sequences_daily" ≡ some 50
unfolding limit_of
nooks_limit = refl

nooks_mode : resolved_mode "nooks_sequences_daily" none ≡ "hard"
unfolding resolved_mode is_soft_bucket
nooks_mode = refl

abbrev busy_day : World
busy_day = world_of [] (rate_row ∷ [])

budget_example :
    let (n, w) =
      call_each ((100 * day) ∷ (100 * day + 1) ∷ []) "nooks_sequences_daily" 86400 none busy_day in
    (count_at "nooks_sequences_daily" (100 * day) busy_day + n
      ≡ min 50 (count_at "nooks_sequences_daily" (100 * day) busy_day + 2))
    × (count_at "nooks_sequences_daily" (100 * day) w
        ≡ count_at "nooks_sequences_daily" (100 * day) busy_day + n)
unfolding window_of find_rate
budget_example =
    budget 86400 50 (100 * day) "nooks_sequences_daily" none ((100 * day) ∷ (100 * day + 1) ∷ [])
      busy_day nooks_limit nooks_mode (omega arith) (tt, tt) (omega arith) (refl, (refl, tt))

-- The call is 7 microseconds into a Monday, 2024-10-07, so the week starts 7 microseconds before.
window_bounds_example :
    let now = 20003 * day + 7 in
    let start = window_of now 604800 in
    (start ≤ now) × (now < start + 7 * day) × ((start + 3 * day) % (7 * day) ≡ 0)
window_bounds_example = window_bounds (20003 * day + 7) 604800 (omega arith)

admitted_call_example :
    let w = (count_call 50 false "nooks_sequences_daily" (100 * day) busy_day).1 in
    IsKeyed w.rates
    × ((j : String) (u : ℕ)
        → count_at j u w ≡ (
            if str_eq "nooks_sequences_daily" j && (100 * day == u)
            then count_at "nooks_sequences_daily" (100 * day) busy_day + 1
            else count_at j u busy_day))
admitted_call_example = admitted_call 50 "nooks_sequences_daily" (100 * day) busy_day (tt, tt)
