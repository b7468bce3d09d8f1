-- ===== src/Permissions/Offboard.antt =====
-- agents/revops_support/permissions/offboarding.py
use loop_revops_agents.Base.{
  ℕ, String, Bool, true, false, Option, none, some, List, [], ◌∷◌, ◌++◌, ◌<>◌, ◌&&◌, not, str_eq,
  is_empty, length, if◌then◌else◌,
}
use loop_revops_agents.Base.Table.{next_id}
use loop_revops_agents.World.{Env, ok, M, pure, ◌>>=◌, ◌>>◌}
use loop_revops_agents.World.Values.{
  Json, flag, number, text, Fields, end, field, find_field, get, truthy, flag_number,
}
use loop_revops_agents.World.Runs.{Task}
use loop_revops_agents.Salesforce.{update_record}
use loop_revops_agents.Bulk.{Ports, bulk_update}
use loop_revops_agents.Permissions.{Soql, ask, rows_owned_by, count_owned_by}

abbrev pub reassign_sobjects : List String
reassign_sobjects = "Account" ∷ "Opportunity" ∷ "Lead" ∷ "Case" ∷ []

pub record OffboardRequest : Type 0 where
  pub user_id : String
  pub transfer_to_user_id : Option String
  pub reassign : List String

pub record OffboardResult : Type 0 where
  pub deactivated : Bool
  -- Each object with its number of rows, in the order of the request.
  pub reassigned : List (String × ℕ)

-- `int(value)`, of a count that SOQL gives as a number.
abbrev int_of : Json → ℕ
int_of (number n) = n
int_of (flag b) = flag_number b
int_of _ = 0

abbrev size_of : Option ℕ → ℕ
size_of none = 0
size_of (some n) = n

-- The count in the first record, under either name, or `totalSize`.
abbrev pub count_in : Option ℕ → List Fields → ℕ
count_in size [] = size_of size
count_in size (r ∷ _) = elim (find_field "expr0" r) [
  | some v ↦ int_of v
  | none ↦ elim (find_field "c" r) [ some v ↦ int_of v | none ↦ size_of size ]
]

unfoldable pub count_owned : Soql → String → String → M ℕ
count_owned soql sobject user_id = do
  answer ← ask soql (count_owned_by sobject user_id)
  pure (count_in answer.total_size answer.records)

-- `[rec["Id"] for rec in records if rec.get("Id")]`
unfoldable pub ids_in : List Fields → List Json
ids_in [] = []
ids_in (r ∷ rs) = let rest = ids_in rs in if truthy (get "Id" r) then get "Id" r ∷ rest else rest

unfoldable pub ids_owned : Soql → String → String → M (List Json)
ids_owned soql sobject user_id = do
  answer ← ask soql (rows_owned_by sobject user_id)
  pure (ids_in answer.records)

-- `[{"Id": rid, "OwnerId": owner} for rid in ids]`
abbrev pub owner_updates : String → List Json → List Fields
owner_updates owner [] = []
owner_updates owner (i ∷ ids) =
    field "Id" i (field "OwnerId" (text owner) end) ∷ owner_updates owner ids

abbrev pub reassign_rows :
    Env → Ports → ℕ → String → Option ℕ → String → String → List Json → M (List (String × ℕ))
reassign_rows env p now agent_name gate_id owner sobject ids = if is_empty ids then pure [] else do
  bulk_update env p now agent_name sobject (owner_updates owner ids) gate_id false
  pure ((sobject, length ids) ∷ [])

-- The loop over the objects whose rows go to a new owner.
unfoldable pub reassign_all :
    Env
    → Soql
    → Ports
    → ℕ
    → String
    → Option ℕ
    → String
    → String
    → List String
    → M (List (String × ℕ))
reassign_all env soql p now agent_name gate_id user_id owner [] = pure []
reassign_all env soql p now agent_name gate_id user_id owner (s ∷ ss) = do
  ids ← ids_owned soql s user_id
  mine ← reassign_rows env p now agent_name gate_id owner s ids
  rest ← reassign_all env soql p now agent_name gate_id user_id owner ss
  pure (mine ++ rest)

unfoldable pub count_all : Soql → String → List String → M (List (String × ℕ))
count_all soql user_id [] = pure []
count_all soql user_id (s ∷ ss) = do
  n ← count_owned soql s user_id
  rest ← count_all soql user_id ss
  pure ((s, n) ∷ rest)

-- `if req.transfer_to_user_id: … else: …`
abbrev pub reassign_or_count :
    Env → Soql → Ports → ℕ → String → Option ℕ → OffboardRequest → M (List (String × ℕ))
reassign_or_count env soql p now agent_name gate_id req = elim req.transfer_to_user_id [
  | none ↦ count_all soql req.user_id req.reassign
  | some owner ↦
      if str_eq owner ""
      then count_all soql req.user_id req.reassign
      else reassign_all env soql p now agent_name gate_id req.user_id owner req.reassign
]

-- `SELECT 1 FROM tasks WHERE source = :s AND status != 'completed' LIMIT 1`
unfoldable pub has_open_task : String → List Task → Bool
has_open_task source [] = false
has_open_task source (t ∷ ts) =
    let rest = has_open_task source ts in
    if str_eq t.source source && not (str_eq t.status "completed") then true else rest

abbrev pub followup_source : String → String
followup_source user_id = "revops_support:offboarding:package_access:" <> user_id

abbrev pub followup_task : String → ℕ → Task
followup_task user_id task_id = record {
  id = task_id;
  agent_name = "revops_support";
  title = "Revoke package access for " <> user_id;
  status = "pending";
  priority = "medium";
  category = "sf_offboarding";
  source = followup_source user_id;
  assignee = "O";
}

-- `_open_manual_followup`
unfoldable pub open_manual_followup : String → M (Unit {0})
open_manual_followup user_id w =
    if has_open_task (followup_source user_id) w.tasks then (ok tt, w) else (
      ok tt,
      record w { tasks = w.tasks ++ followup_task user_id (next_id (λ t. t.id) w.tasks) ∷ [] },
    )

unfoldable pub offboard :
    Env → Soql → Ports → ℕ → String → Option ℕ → OffboardRequest → M OffboardResult
offboard env soql p now agent_name gate_id req = do
  reassigned ← reassign_or_count env soql p now agent_name gate_id req
  update_record env "User" (text req.user_id) (field "IsActive" (flag false) end) agent_name gate_id
  open_manual_followup req.user_id
  pure (record { deactivated = true; reassigned = reassigned })
