-- ===== src/Schema/Proposer.antt =====
-- agents/revops_support/schema/change_proposer.py
use Prim.Native.Char.{Char, code}
use loop_revops_agents.Base.{
  ℕ, String, Bool, true, false, none, some, List, [], ◌∷◌, ◌++◌, ◌<>◌, ◌&&◌, ◌||◌, ◌==◌, not, leb,
  str_eq, lookup, if◌then◌else◌,
}
use loop_revops_agents.Base.Texts.{strip, lower}
use loop_revops_agents.World.{
  ok, err, M, pure, raise, raise_if, ◌>>=◌, ◌>>◌, no_justification, approval_required,
  proposal_error, type_error,
}
use loop_revops_agents.World.Values.{
  Json, null, number, text, array, object, Fields, end, field, array_of, get, truthy,
}
use loop_revops_agents.World.Bundles.{
  Xml, field_xml, member_xml, package_xml, empty_package_xml, Files, find_bundle,
}
use loop_revops_agents.Governance.Tiers.{tier_of}
use loop_revops_agents.Governance.Gates.{Request, create_approval_gate}
use loop_revops_agents.Governance.Limits.{check_rate_limit}
use loop_revops_agents.Schema.{Moment, bundle_dir, dict_of, load_manifest, save_manifest}

-- `_ACTION_TO_TIER`
abbrev pub action_to_tier : List (String × String)
action_to_tier =
    ("create", "sf_schema_create")
    ∷ ("modify", "sf_schema_modify")
    ∷ ("delete", "sf_schema_delete")
    ∷ []

abbrev is_letter : Char → Bool
is_letter c = (leb 65 (code c) && leb (code c) 90) || (leb 97 (code c) && leb (code c) 122)

-- `[A-Za-z0-9_]`
abbrev is_word : Char → Bool
is_word c = is_letter c || (leb 48 (code c) && leb (code c) 57) || (code c == 95)

-- What `$` lets through: the end, or a newline before it.
abbrev at_end : String → Bool
at_end s = str_eq s "" || str_eq s "\n"

-- `[A-Za-z0-9_]*(__c)?$`
unfoldable pub object_rest : String → Bool
object_rest String.[] = true
object_rest (String.◌∷◌ c s) = at_end (String.◌∷◌ c s) || (is_word c && object_rest s)

-- `[A-Za-z0-9_]*__c$`
unfoldable pub field_rest : String → Bool
field_rest String.[] = false
field_rest (String.◌∷◌ c s) =
    str_eq (String.◌∷◌ c s) "__c" || str_eq (String.◌∷◌ c s) "__c\n" || (is_word c && field_rest s)

-- `_OBJECT_NAME_RE.match(s)`
unfoldable pub is_object_name : String → Bool
is_object_name String.[] = false
is_object_name (String.◌∷◌ c s) = is_letter c && object_rest s

-- `_FIELD_NAME_RE.match(s)`
unfoldable pub is_field_name : String → Bool
is_field_name String.[] = false
is_field_name (String.◌∷◌ c s) = is_letter c && field_rest s

-- What an intent says, once it is validated.
pub record Change : Type 0 where
  pub action : String
  pub sobject : String
  pub fld : Fields
  pub field_name : String
  pub action_type : String

-- `action not in _ACTION_TO_TIER`, which raises `TypeError` on a value that has no hash.
abbrev pub valid_action : Json → M (String × String)
valid_action (text a) = elim (lookup a action_to_tier) [
  | none ↦ raise proposal_error
  | some t ↦ pure (a, t)
]
valid_action (array _) = raise type_error
valid_action (object _) = raise type_error
valid_action _ = raise proposal_error

-- `not name or not regex.match(name)`, which raises `TypeError` on what is no text.
abbrev pub valid_name : (String → Bool) → Json → M String
valid_name matches (text s) =
    if not (str_eq s "") && matches s then pure s else raise proposal_error
valid_name matches v = raise (if truthy v then type_error else proposal_error)

-- `intent.get("field") or {}`
abbrev pub field_of : Json → M Fields
field_of v = if truthy v then dict_of v else pure end

-- `_validate_intent`: it hands on what it read, which `propose_change` reads again.
unfoldable pub validate_intent : Fields → M Change
validate_intent intent = do
  (action, action_type) ← valid_action (get "action" intent)
  sobject ← valid_name is_object_name (get "object" intent)
  fld ← field_of (get "field" intent)
  field_name ← valid_name is_field_name (get "name" fld)
  let writes = not (str_eq action "delete")
  raise_if (writes && not (truthy (get "type" fld))) proposal_error
  raise_if (writes && not (truthy (get "label" fld))) proposal_error
  pure (record {
    action = action;
    sobject = sobject;
    fld = fld;
    field_name = field_name;
    action_type = action_type;
  })

unfoldable pub slugify : Moment → Change → String
slugify moment c =
    lower (moment.stamp <> "-" <> c.action <> "-" <> c.sobject <> "-" <> c.field_name)

-- `if field.get(key): …`, and `if field.get(key) is not None: …`
abbrev line_if_true : String → Fields → List (String × Json)
line_if_true key fld = if truthy (get key fld) then (key, get key fld) ∷ [] else []

abbrev line_if_given : String → Fields → List (String × Json)
line_if_given key fld = elim (get key fld) [ null ↦ [] | v ↦ (key, v) ∷ [] ]

abbrev field_meta_xml : Fields → Xml
field_meta_xml fld = field_xml (
    (("fullName", get "name" fld) ∷ [])
    ++ line_if_true "type" fld
    ++ line_if_true "label" fld
    ++ line_if_true "description" fld
    ++ line_if_given "length" fld
    ++ line_if_given "precision" fld
    ++ line_if_given "scale" fld
    ++ (if truthy (get "required" fld) then ("required", text "true") ∷ [] else []))

abbrev force_app_root : String
force_app_root = "force-app/main/default"

-- The files of `_write_bundle`, in the order in which they are written.
unfoldable pub bundle_files : Change → Files
bundle_files c =
    if str_eq c.action "delete"
    then (force_app_root <> "/destructiveChanges.xml", member_xml c.sobject c.field_name)
      ∷ (force_app_root <> "/package.xml", empty_package_xml)
      ∷ []
    else (
      force_app_root <> "/objects/" <> c.sobject <> "/fields/" <> c.field_name <> ".field-meta.xml",
      field_meta_xml c.fld,
    )
      ∷ (force_app_root <> "/package.xml", package_xml)
      ∷ []

abbrev pub paths : Files → List String
paths [] = []
paths ((path, _) ∷ files) = path ∷ paths files

abbrev texts : List String → List Json
texts [] = []
texts (s ∷ ss) = text s ∷ texts ss

-- `_write_bundle`: the manifest is not there yet.
unfoldable pub write_bundle : String → Change → M Files
write_bundle slug c w = elim (find_bundle slug w.bundles) [
  | some _ ↦ (err proposal_error, w)
  | none ↦ (
    ok (bundle_files c),
    record w {
      bundles =
          w.bundles
          ++ record { slug = slug; manifest = end; force_app = bundle_files c; revert = none } ∷ [];
    },
  )
]

-- The dictionary that `_write_manifest` writes.
abbrev pub manifest_of : Moment → String → Change → ℕ → String → String → Files → Fields
manifest_of moment slug c gate_id justification requested_by files = field "slug" (text slug) (
    field "action" (text c.action) (
      field "action_type" (text c.action_type) (
        field "object" (text c.sobject) (
          field "field" (object c.fld) (
            field "approval_gate_id" (number gate_id) (
              field "justification" (text justification) (
                field "requested_by" (text requested_by) (
                  field "created_at" (text moment.iso) (
                    field "force_app_root" (text force_app_root) (
                      field "files" (array (array_of (texts (paths files))))
                        (field "status" (text "proposed") end)))))))))))

-- The gate that is asked for.
abbrev pub change_request : Moment → String → Change → String → String → Request
change_request moment slug c justification requested_by = record {
  agent_name = "revops_support";
  action_type = c.action_type;
  payload = field "slug" (text slug) (
      field "bundle_path" (text (bundle_dir moment slug)) (
        field "action" (text c.action)
          (field "object" (text c.sobject) (field "field" (text c.field_name) end))));
  justification = some justification;
  requested_by = requested_by;
  ttl_hours = 24;
}

pub record ProposedChange : Type 0 where
  pub slug : String
  pub change : Change
  pub approval_gate_id : ℕ
  pub files : List String

-- The writes of `propose_change`, after its checks.
unfoldable pub write_proposal : Moment → String → Change → String → String → M ProposedChange
write_proposal moment slug c justification requested_by = do
  files ← write_bundle slug c
  gate_id ←
      create_approval_gate moment.now (change_request moment slug c justification requested_by)
  save_manifest slug (manifest_of moment slug c gate_id justification requested_by files)
  pure (record {
    slug = slug;
    change = c;
    approval_gate_id = gate_id;
    files = paths files ++ "change.yaml" ∷ [];
  })

unfoldable pub propose_change : Moment → Fields → String → String → M ProposedChange
propose_change moment intent justification requested_by = do
  c ← validate_intent intent
  raise_if (str_eq (strip justification) "") (approval_required no_justification)
  raise_if (elim (tier_of c.action_type) [ none ↦ true | some _ ↦ false ]) proposal_error
  check_rate_limit moment.now "revops_schema_changes_weekly" 604800 none
  write_proposal moment (slugify moment c) c justification requested_by

-- `load_proposal`, which `_load_manifest` of the deployer and of the rollback repeats.
abbrev pub load_proposal : String → M Fields
load_proposal slug = load_manifest slug
