-- ===== src/Schema.antt =====
-- agents/revops_support/schema: the proposals to change the org's schema, their test in a sandbox,
-- their deployment and its rollback. What the modules share: the manifests, the deploy and retrieve
-- commands of shared/mcp/salesforce_mcp.py, and the reading of their answers.
pub mod Stored
pub mod Proposer
pub mod Proposed
pub mod Sandbox
pub mod Tested
pub mod Deployer
pub mod Cleared
pub mod Deployed
pub mod Rollback
pub mod Reverted
use loop_revops_agents.Base.{
  ℕ, String, Bool, true, false, Option, none, some, List, [], ◌∷◌, ◌++◌, ◌<>◌, ◌&&◌, ◌==◌, str_eq,
  contains, if◌then◌else◌,
}
use loop_revops_agents.Base.Texts.{lower}
use loop_revops_agents.World.{
  World, deploy_call, retrieve_call, Env, Result, ok, err, M, pure, raise, or_raise, ◌>>=◌, ◌>>◌,
  missing_key, type_error, attribute_error, file_not_found,
}
use loop_revops_agents.World.Values.{
  Json, null, flag, number, text, array, object, Fields, end, find_field, get, or_else, flag_number,
}
use loop_revops_agents.World.Bundles.{Bundle, find_bundle, update_bundle}
use loop_revops_agents.Salesforce.{Intent, resolve_org_alias, sf}

-- What a call reads of its surroundings: the clock, twice rendered as text, and the directory of
-- the pending changes.
pub record Moment : Type 0 where
  pub now : ℕ
  -- `now.strftime("%Y%m%d-%H%M%S")`
  pub stamp : String
  -- `now.isoformat()`
  pub iso : String
  pub pending_dir : String

-- `str(_bundle_dir(slug))`
abbrev pub bundle_dir : Moment → String → String
bundle_dir moment slug = moment.pending_dir <> "/" <> slug

-- `d[key]`, which raises `KeyError`.
abbrev pub key_of : String → Fields → M Json
key_of key d = or_raise (find_field key d) missing_key

-- `value[key]`, where the value should be a dictionary.
abbrev pub item_of : String → Json → M Json
item_of key (object d) = key_of key d
item_of key _ = raise type_error

-- The dictionary that `.get` is called of.
abbrev pub dict_of : Json → M Fields
dict_of (object d) = pure d
dict_of _ = raise attribute_error

-- A value that goes into an f-string. The manifests hold texts there; no other value is printed.
abbrev pub text_of : Json → M String
text_of (text s) = pure s
text_of _ = raise type_error

-- The key that a value of a manifest names: the manifests hold numbers, and any other value names
-- no gate.
abbrev pub as_key : Json → Option ℕ
as_key (number n) = some n
as_key (flag b) = some (flag_number b)
as_key _ = none

unfoldable pub load_manifest : String → M Fields
load_manifest slug w = elim (find_bundle slug w.bundles) [
  | none ↦ (err file_not_found, w)
  | some b ↦ (ok b.manifest, w)
]

abbrev with_manifest : Fields → Bundle → Bundle
with_manifest manifest b = record b { manifest = manifest }

unfoldable pub save_manifest : String → Fields → M (Unit {0})
save_manifest slug manifest w =
    (ok tt, record w { bundles = update_bundle slug (with_manifest manifest) w.bundles })

-- A source's test levels: the argument is left out when there is none.
abbrev test_level_args : Option String → List String
test_level_args none = []
test_level_args (some level) = "--test-level" ∷ level ∷ []

abbrev pub deploy_args : String → Option String → List String
deploy_args source test_level =
    "project" ∷ "deploy" ∷ "start" ∷ "--source-dir" ∷ source ∷ test_level_args test_level

-- `deploy_metadata`, as its three callers here call it.
unfoldable pub deploy_metadata : Env → Intent → String → Option String → M Fields
deploy_metadata env intent source test_level w = elim (resolve_org_alias env.config intent) [
  | err e ↦ (err e, w)
  | ok alias ↦ sf env (deploy_call alias (deploy_args source test_level)) w
]

unfoldable pub retrieve_metadata : Env → Intent → String → String → M Fields
retrieve_metadata env intent item target_dir w = elim (resolve_org_alias env.config intent) [
  | err e ↦ (err e, w)
  | ok alias ↦
      let args = "project" ∷ "retrieve" ∷ "start" ∷ "--target-metadata-dir" ∷ target_dir ∷ [] in
      sf env (retrieve_call alias (args ++ "--metadata" ∷ item ∷ [])) w
]

-- `raw.get("id") or raw.get("deployId")`
abbrev pub deploy_id_of : Fields → Json
deploy_id_of raw = or_else (get "id" raw) (get "deployId" raw)

-- `str(status).lower() in ("succeeded", "succeededpartial", "")`: no other value prints as one of
-- these.
unfoldable pub is_settled : Json → Bool
unfolding lower
is_settled (text s) = contains (lower s) ("succeeded" ∷ "succeededpartial" ∷ "" ∷ [])
is_settled _ = false
