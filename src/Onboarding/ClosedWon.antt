-- ===== src/Onboarding/ClosedWon.antt =====
-- agents/onboarding/closed_won_poller.py. The answers of its queries are parameters.
use loop_revops_agents.Base.{
  ℕ, ◌+◌, ◌-◌, ◌*◌, String, Bool, true, false, Option, none, some, List, [], ◌∷◌, ◌++◌, ◌&&◌, not,
  ltb, str_eq, length, is_empty, select, if◌then◌else◌,
}
use loop_revops_agents.Base.Table.{next_id}
use loop_revops_agents.World.{
  SfCall, Env, Error, Result, ok, err, M, pure, raise, or_raise, ◌>>=◌, ◌>>◌, approval_required,
  salesforce_error,
}
use loop_revops_agents.World.Values.{Json, text, Fields, end, field, get, truthy, json_eq}
use loop_revops_agents.World.Rows.{day, record_target}
use loop_revops_agents.World.Runs.{Run, Task}
use loop_revops_agents.Governance.Gates.{
  Entry, Request, write_audit, create_approval_gate, decide_approval_gate,
}
use loop_revops_agents.Cs.{item_of}
use loop_revops_agents.Runs.{open_run, close_run}
use loop_revops_agents.Onboarding.Creator.{create_from_opp}

pub data Strategy : Type 0 where
  strategy_a strategy_b : Strategy

-- The four queries that the poller makes.
pub data Query : Type 0 where
  created_field_exists : Query
  closed_won : Strategy → ℕ → Query
  existing_onboardings : List Json → Query
  onboarding_of : Json → Query

-- `soql_query(…)["records"]`, which may depend on what was written before; `none` is an exception.
abbrev pub Soql : Type 0
Soql = List SfCall → Query → Option (List Fields)

abbrev pub ask : Soql → Query → M (List Fields)
ask soql q w = or_raise (soql w.calls q) salesforce_error w

unfoldable pub detect_dedup_strategy : Soql → M Strategy
detect_dedup_strategy soql w = elim (soql w.calls created_field_exists) [
  | none ↦ (ok strategy_b, w)
  | some records ↦ (ok (if is_empty records then strategy_b else strategy_a), w)
]

-- `ORDER BY completed_at DESC LIMIT 1`, over the runs that are completed.
unfoldable pub latest_completed : List Run → Option ℕ
latest_completed [] = none
latest_completed (r ∷ rs) =
    let rest = latest_completed rs in
    if str_eq r.agent_name "onboarding" && str_eq r.status "completed"
    then elim r.completed_at [
      | none ↦ rest
      | some t ↦ some (elim rest [ none ↦ t | some u ↦ if ltb t u then u else t ])
    ]
    else rest

unfoldable pub last_poll_time : ℕ → List Run → ℕ
last_poll_time now runs = elim (latest_completed runs) [ none ↦ now - 7 * day | some t ↦ t ]

-- `[r["Id"] for r in records]`
unfoldable pub ids_of : List Fields → M (List Json)
ids_of [] = pure []
ids_of (r ∷ rs) = do i ← item_of "Id" r; ids ← ids_of rs; pure (i ∷ ids)

-- Whether an existing onboarding names the opportunity.
unfoldable pub is_taken : Json → List Fields → Bool
is_taken opp_id [] = false
is_taken opp_id (r ∷ rs) =
    let rest = is_taken opp_id rs in
    let taken = get "Opportunity__c" r in
    if truthy taken && json_eq taken opp_id then true else rest

unfoldable pub select_candidates : Soql → Strategy → ℕ → M (List Fields)
select_candidates soql strategy_a last_poll = ask soql (closed_won strategy_a last_poll)
select_candidates soql strategy_b last_poll = do
  records ← ask soql (closed_won strategy_b last_poll)
  (if is_empty records then pure records else do
    ids ← ids_of records
    existing ← ask soql (existing_onboardings ids)
    pure (select (λ r. not (is_taken (get "Id" r) existing)) records))

-- `_onboarding_already_exists`
unfoldable pub onboarding_already_exists : Soql → Json → M Bool
onboarding_already_exists soql opp_id = do
  records ← ask soql (onboarding_of opp_id)
  pure (not (is_empty records))

abbrev pub self_request : Fields → Json → Request
self_request opp opp_id = record {
  agent_name = "onboarding";
  action_type = "single_record_update";
  payload = field "origin" (text "onboarding_auto_create") (
      field "opportunity_id" opp_id (
        field "account_id" (get "AccountId" opp)
          (field "owner_id" (get "OwnerId" opp) (field "amount" (get "Amount" opp) end))));
  justification = none;
  requested_by = "system:onboarding";
  ttl_hours = 24;
}

unfoldable pub create_self_approved_gate : ℕ → Fields → M ℕ
create_self_approved_gate now opp = do
  opp_id ← item_of "Id" opp
  gate_id ← create_approval_gate now (self_request opp opp_id)
  decide_approval_gate now gate_id true "system:onboarding"
  pure gate_id

pub data Outcome : Type 0 where
  created skipped : Outcome

pub record Summary : Type 0 where
  pub candidates : ℕ
  pub created_count : ℕ
  pub skipped_count : ℕ
  -- The opportunities of the errors.
  pub errors : List Json

-- The body of the loop, inside its `try`.
unfoldable pub process : Env → Soql → ℕ → Fields → M Outcome
process env soql now opp = do
  opp_id ← item_of "Id" opp
  exists_already ← onboarding_already_exists soql opp_id
  (if exists_already then pure skipped else do
    gate_id ← create_self_approved_gate now opp
    create_from_opp env now opp gate_id
    pure created)

abbrev pub count_outcome : Outcome → Summary → Summary
count_outcome created s = record s { created_count = s.created_count + 1 }
count_outcome skipped s = record s { skipped_count = s.skipped_count + 1 }

abbrev pub add_error : Json → Summary → Summary
add_error opp_id s = record s { errors = s.errors ++ opp_id ∷ [] }

-- The audit row `sf_create_failed`. The text of the exception is the parameter `message`.
abbrev pub failure_entry : (Error → String) → ℕ → Json → Error → Entry
failure_entry message run_id opp_id e = record {
  agent_name = "onboarding";
  action = "sf_create_failed";
  target = some (record_target "Opportunity" opp_id);
  before = none;
  after = some (field "error" (text (message e)) end);
  approval_gate_id = none;
  rate_limit_bucket = none;
  run_id = some run_id;
}

abbrev pub is_refusal : Error → Bool
is_refusal (approval_required _) = true
is_refusal _ = false

-- What the two `except` clauses do, or the count of an outcome.
abbrev pub account_for : (Error → String) → ℕ → Fields → Summary → Result Outcome → M Summary
account_for message run_id opp s (ok o) = pure (count_outcome o s)
account_for message run_id opp s (err e) = do
  opp_id ← item_of "Id" opp
  (if is_refusal e
      then pure tt
      else do write_audit (failure_entry message run_id opp_id e); pure tt)
  pure (add_error opp_id s)

-- One turn of the loop.
abbrev pub process_one : Env → Soql → (Error → String) → ℕ → ℕ → Fields → Summary → M Summary
process_one env soql message now run_id opp s w =
    let (r, w') = process env soql now opp w in account_for message run_id opp s r w'

unfoldable pub process_all :
    Env → Soql → (Error → String) → ℕ → ℕ → List Fields → Summary → M Summary
process_all env soql message now run_id [] s = pure s
process_all env soql message now run_id (opp ∷ opps) s = do
  s' ← process_one env soql message now run_id opp s
  process_all env soql message now run_id opps s'

abbrev pub schema_gap_source : String
schema_gap_source = "onboarding:schema_gap:onboarding_record_created"

-- `SELECT 1 FROM tasks WHERE source = :s LIMIT 1`
unfoldable pub has_task : String → List Task → Bool
has_task source [] = false
has_task source (t ∷ ts) =
    let rest = has_task source ts in if str_eq t.source source then true else rest

abbrev schema_gap_task : ℕ → Task
schema_gap_task task_id = record {
  id = task_id;
  agent_name = "revops_support";
  title = "Add Onboarding_Record_Created__c checkbox to Opportunity";
  status = "pending";
  priority = "medium";
  category = "sf_schema_gap";
  source = schema_gap_source;
  assignee = "system";
}

unfoldable pub flag_schema_gap_task : M (Unit {0})
flag_schema_gap_task w =
    if has_task schema_gap_source w.tasks
    then (ok tt, w)
    else (ok tt, record w { tasks = w.tasks ++ schema_gap_task (next_id (λ t. t.id) w.tasks) ∷ [] })

abbrev pub flag_if : Strategy → M (Unit {0})
flag_if strategy_a = pure tt
flag_if strategy_b = flag_schema_gap_task

abbrev pub fresh_summary : ℕ → Summary
fresh_summary n = record { candidates = n; created_count = 0; skipped_count = 0; errors = [] }

-- The `try` of `poll`, whose clock is `now` throughout.
unfoldable pub poll_body : Env → Soql → (Error → String) → ℕ → ℕ → M Summary
poll_body env soql message now run_id = do
  strategy ← detect_dedup_strategy soql
  candidates ← λ w. select_candidates soql strategy (last_poll_time now w.runs) w
  flag_if strategy
  process_all env soql message now run_id candidates (fresh_summary (length candidates))

abbrev pub conclude : (Error → String) → ℕ → ℕ → Result Summary → M Summary
conclude message now run_id (ok s) = do close_run now run_id "completed" none; pure s
conclude message now run_id (err e) = do close_run now run_id "failed" (some (message e)); raise e

unfoldable pub poll_closed_won : Env → Soql → (Error → String) → ℕ → M Summary
poll_closed_won env soql message now = do
  run_id ← open_run "onboarding" "cron:onboarding-closed-won-poller" none "in_progress" now
  λ w. let (r, w') = poll_body env soql message now run_id w in conclude message now run_id r w'
