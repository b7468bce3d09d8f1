-- ===== src/World/Bundles.antt =====
-- The directory agents/revops_support/pending_changes: a proposed change of the org's schema, with
-- its manifest change.yaml and the files to deploy. `yaml.safe_load(yaml.safe_dump(m))` is `m`.
use loop_revops_agents.Base.{String, Option, none, some, List, [], ◌∷◌, str_eq, if◌then◌else◌}
use loop_revops_agents.World.Values.{Json, Fields}

-- The text of an XML file, by the function or the f-string that makes it.
pub data Xml : Type 0 where
  -- The tags with their values, `fullName` first.
  field_xml : List (String × Json) → Xml
  -- The package that names one field of one object.
  member_xml : String → String → Xml
  package_xml : Xml
  empty_package_xml : Xml

abbrev pub Files : Type 0
Files = List (String × Xml)

pub record Bundle : Type 0 where
  pub slug : String
  -- change.yaml
  pub manifest : Fields
  -- The directory force-app, which is there when it holds a file.
  pub force_app : Files
  -- The directory revert, apart from what `sf` retrieved into it.
  pub revert : Option Files

unfoldable pub find_bundle : String → List Bundle → Option Bundle
find_bundle slug [] = none
find_bundle slug (b ∷ bs) = if str_eq b.slug slug then some b else find_bundle slug bs

-- Writing a file of the bundle.
unfoldable pub update_bundle : String → (Bundle → Bundle) → List Bundle → List Bundle
update_bundle slug f [] = []
update_bundle slug f (b ∷ bs) = (if str_eq b.slug slug then f b else b) ∷ update_bundle slug f bs
