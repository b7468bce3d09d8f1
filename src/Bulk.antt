-- ===== src/Bulk.antt =====
-- agents/revops_support/data_quality/bulk_updater.py: the batch update over the composite REST
-- interface. An `Id` is a text; the command line, the query and the HTTP client are parameters.
pub mod Reads
pub mod Batch
use loop_revops_agents.Base.{
  ℕ, ◌+◌, String, Bool, true, false, Option, none, some, List, [], ◌∷◌, ◌++◌, ◌||◌, not, leb,
  str_eq, is_empty, length, if◌then◌else◌, str_before, ◌<>◌,
}
use loop_revops_agents.Base.Texts.{rstrip_slash}
use loop_revops_agents.Base.Slices.{slices}
use loop_revops_agents.World.{
  World, SfCall, patch_call, Env, Result, ok, err, M, pure, raise, or_raise, raise_if, ◌>>=◌, ◌>>◌,
  http_error, bulk_update_error, salesforce_error, attribute_error, approval_required, no_gate_id,
}
use loop_revops_agents.World.Values.{
  Json, Fields, null, text, number, object, array, end, field, nil, array_of, get, put, find_field,
  truthy,
}
use loop_revops_agents.World.Rows.{sobject_target}
use loop_revops_agents.Governance.Tiers.{classify_bulk_update}
use loop_revops_agents.Governance.Gates.{Entry, write_audit, require_approved_gate}
use loop_revops_agents.Governance.Limits.{check_rate_limit}
use loop_revops_agents.Salesforce.{write, resolve_org_alias}

abbrev pub composite_chunk : ℕ
composite_chunk = 200

abbrev pub soql_in_chunk : ℕ
soql_in_chunk = 200

abbrev pub rate_bucket : String
rate_bucket = "revops_bulk_update_daily"

pub record Response : Type 0 where
  pub status_code : ℕ
  -- `resp.json()`
  pub body : List Fields

-- What the updater is given: `soql_query` and `http_patch`, and `sf org display` for an alias.
pub record Ports : Type 0 where
  -- The records for an object, fields and ids; `none` raises.
  pub soql : String → List String → List String → Option (List Fields)
  -- The JSON printed; `none` is a non-zero return code.
  pub display : String → Option Json
  -- The response to a call after all calls before it, sent with a token; `none` raises.
  pub http_patch : String → List SfCall → SfCall → Option Response

-- `u["Id"]`, with the empty text for one that is missing or is no text.
abbrev pub id_of : Fields → String
id_of u = elim (get "Id" u) [ text s ↦ s | _ ↦ "" ]

abbrev pub missing_id : List Fields → Bool
missing_id [] = false
missing_id (u ∷ us) = str_eq (id_of u) "" || missing_id us

-- `_validate_updates`
unfoldable pub validate_updates : List Fields → M (Unit {0})
validate_updates updates = do
  raise_if (is_empty updates) bulk_update_error
  raise_if (missing_id updates) bulk_update_error

-- `sorted` of a set, built by insertion.
unfoldable pub insert_name : String → List String → List String
insert_name k [] = k ∷ []
insert_name k (x ∷ xs) =
    let rest = insert_name k xs in
    if str_eq k x then x ∷ xs else if str_before k x then k ∷ x ∷ xs else x ∷ rest

abbrev names_of : Fields → List String → List String
names_of end acc = acc
names_of (field k v rest) acc =
    let others = names_of rest acc in if str_eq k "Id" then others else insert_name k others

-- `_modified_fields`
unfoldable pub modified_fields : List Fields → List String
unfolding insert_name
modified_fields [] = []
modified_fields (u ∷ us) = names_of u (modified_fields us)

-- `{f: rec.get(f) for f in fields}`
abbrev row_of : List String → Fields → Fields
row_of [] rec = end
row_of (f ∷ fs) rec = field f (get f rec) (row_of fs rec)

abbrev pub keep_rows : List String → List Fields → Fields → Fields
keep_rows fields [] snapshot = snapshot
keep_rows fields (rec ∷ recs) snapshot = keep_rows fields recs (
    if str_eq (id_of rec) ""
    then snapshot
    else put (id_of rec) (object (row_of fields rec)) snapshot)

abbrev pub fetch_chunks : Ports → String → List String → List (List String) → Fields → M Fields
fetch_chunks p sobject fields [] snapshot = pure snapshot
fetch_chunks p sobject fields (ids ∷ rest) snapshot = do
  records ← or_raise (p.soql sobject fields ids) salesforce_error
  fetch_chunks p sobject fields rest (keep_rows fields records snapshot)

-- `_fetch_before_snapshot`
unfoldable pub fetch_before_snapshot : Ports → String → List String → List String → M Fields
unfolding slices
fetch_before_snapshot p sobject ids fields =
    if is_empty fields
    then pure end
    else fetch_chunks p sobject fields (slices soql_in_chunk ids) end

-- `data.get("result", {}) if isinstance(data, dict) else {}`, where only a dictionary has `get`.
abbrev pub result_of : Json → Option Fields
result_of (object d) = elim (find_field "result" d) [
  | none ↦ some end
  | some (object r) ↦ some r
  | some _ ↦ none
]
result_of _ = some end

abbrev pub text_of : Json → String
text_of (text s) = s
text_of _ = ""

-- `_resolve_org_alias("write")`, which never raises.
abbrev pub write_alias : (String → Option String) → String
write_alias config = elim (resolve_org_alias config write) [ ok alias ↦ alias | err _ ↦ "" ]

abbrev pub check_auth : Fields → M (String × String)
check_auth result = do
  let token = text_of (get "accessToken" result)
  let url = text_of (get "instanceUrl" result)
  raise_if (str_eq token "" || str_eq url "") bulk_update_error
  pure (token, rstrip_slash url)

-- What `sf org display` printed.
abbrev pub auth_of : Option Json → M (String × String)
auth_of none = raise bulk_update_error
auth_of (some printed) = do result ← or_raise (result_of printed) attribute_error; check_auth result

-- `_get_write_auth`: the token and the URL of the instance.
unfoldable pub get_write_auth : Env → Ports → M (String × String)
unfolding resolve_org_alias rstrip_slash
get_write_auth env p = do
  raise_if (str_eq (write_alias env.config) "") bulk_update_error
  auth_of (p.display (write_alias env.config))

-- `{"attributes": {"type": sobject}, **rec}`
abbrev put_all : Fields → Fields → Fields
put_all d end = d
put_all d (field k v rest) = put_all (put k v d) rest

abbrev typed_records : String → List Fields → List Fields
typed_records sobject [] = []
typed_records sobject (rec ∷ recs) =
    put_all (field "attributes" (object (field "type" (text sobject) end)) end) rec
    ∷ typed_records sobject recs

abbrev pub composite_call : String → String → List Fields → SfCall
composite_call sobject url chunk =
    patch_call (url <> "/services/data/v59.0/composite/sobjects") (typed_records sobject chunk)

-- The request, which is sent whatever comes back.
unfoldable pub http_patch : Ports → String → SfCall → M Response
http_patch p token call w =
    or_raise (p.http_patch token w.calls call) http_error
      (record w { calls = w.calls ++ call ∷ [] })

-- `_composite_patch`
unfoldable pub composite_patch : Ports → String → List Fields → String × String → M (List Fields)
unfolding http_patch
composite_patch p sobject chunk auth = do
  resp ← http_patch p auth.0 (composite_call sobject auth.1 chunk)
  raise_if (leb 300 resp.status_code) bulk_update_error
  pure resp.body

pub record BulkUpdateResult : Type 0 where
  pub sobject : String
  pub total : ℕ
  pub success : ℕ
  pub failures : List Fields
  pub audit_ids : List ℕ
  pub before_snapshot : Fields

-- `rec.get("errors", [])`
abbrev pub errors_of : Fields → Json
errors_of rec = elim (find_field "errors" rec) [ none ↦ array nil | some v ↦ v ]

abbrev pub add_record : Fields → BulkUpdateResult → BulkUpdateResult
add_record rec result =
    if truthy (get "success" rec)
    then record result { success = result.success + 1 }
    else record result {
      failures =
          result.failures ++ field "id" (get "id" rec) (field "errors" (errors_of rec) end) ∷ [];
    }

-- The results of a chunk, added to those of the chunks before it.
abbrev pub add_records : List Fields → BulkUpdateResult → BulkUpdateResult
add_records [] result = result
add_records (rec ∷ recs) result = add_records recs (add_record rec result)

-- `{rid: before.get(rid, {}) for rid in chunk_ids}`
abbrev chunk_before : Fields → List Fields → Fields → Fields
chunk_before before [] acc = acc
chunk_before before (u ∷ us) acc =
    let row : Json = elim (find_field (id_of u) before) [ none ↦ object end | some v ↦ v ] in
    chunk_before before us (put (id_of u) row acc)

abbrev objects : List Fields → List Json
objects [] = []
objects (u ∷ us) = object u ∷ objects us

-- What stays the same for all chunks of a run.
pub record Run : Type 0 where
  pub agent_name : String
  pub sobject : String
  pub gate_id : ℕ
  pub before : Fields
  pub auth : String × String

abbrev pub chunk_entry : Run → ℕ → List Fields → Entry
chunk_entry b index chunk = record {
  agent_name = b.agent_name;
  action = "sf_bulk_update";
  target = some (sobject_target b.sobject);
  before = some (chunk_before b.before chunk end);
  after =
      some (
        field "chunk_index" (number index)
          (field "updates" (array (array_of (objects chunk))) end));
  approval_gate_id = some b.gate_id;
  rate_limit_bucket = some rate_bucket;
  run_id = none;
}

abbrev pub with_audit : ℕ → BulkUpdateResult → BulkUpdateResult
with_audit audit_id result = record result { audit_ids = result.audit_ids ++ audit_id ∷ [] }

-- The loop over the chunks, from the chunk of an index on.
unfoldable pub write_chunks :
    Ports → Run → ℕ → List (List Fields) → BulkUpdateResult → M BulkUpdateResult
unfolding write_audit composite_patch
write_chunks p b index [] result = pure result
write_chunks p b index (chunk ∷ rest) result = do
  audit_id ← write_audit (chunk_entry b index chunk)
  per_record ← composite_patch p b.sobject chunk b.auth
  write_chunks p b (index + 1) rest (add_records per_record (with_audit audit_id result))

abbrev pub ids_of : List Fields → List String
ids_of [] = []
ids_of (u ∷ us) = id_of u ∷ ids_of us

abbrev pub fresh_result : String → ℕ → Fields → BulkUpdateResult
fresh_result sobject total before = record {
  sobject = sobject;
  total = total;
  success = 0;
  failures = [];
  audit_ids = [];
  before_snapshot = before;
}

-- The part of a run after the snapshot.
unfoldable pub write_all :
    Env → Ports → String → String → List Fields → ℕ → Fields → M BulkUpdateResult
unfolding get_write_auth write_chunks slices
write_all env p agent_name sobject updates gate_id before = do
  auth ← get_write_auth env p
  write_chunks p
      (record {
        agent_name = agent_name;
        sobject = sobject;
        gate_id = gate_id;
        before = before;
        auth = auth;
      })
      0 (slices composite_chunk updates) (fresh_result sobject (length updates) before)

-- `BulkUpdater.run`
unfoldable pub run_batch :
    Env → Ports → ℕ → String → String → List Fields → ℕ → Bool → M BulkUpdateResult
unfolding validate_updates modified_fields fetch_before_snapshot write_all
run_batch env p now agent_name sobject updates gate_id dry_run = do
  validate_updates updates
  require_approved_gate (some gate_id) (classify_bulk_update (length updates))
  check_rate_limit now rate_bucket 86400 none
  before ← fetch_before_snapshot p sobject (ids_of updates) (modified_fields updates)
  if dry_run
      then pure (fresh_result sobject (length updates) before)
      else write_all env p agent_name sobject updates gate_id before

-- `bulk_update`, the wrapper.
unfoldable pub bulk_update :
    Env → Ports → ℕ → String → String → List Fields → Option ℕ → Bool → M BulkUpdateResult
unfolding run_batch
bulk_update env p now agent_name sobject updates none dry_run = raise (approval_required no_gate_id)
bulk_update env p now agent_name sobject updates (some gate_id) dry_run =
    run_batch env p now agent_name sobject updates gate_id dry_run
