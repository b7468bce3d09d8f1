-- ===== src/Onboarding/Creator.antt =====
-- agents/onboarding/onboarding_record_creator.py
use loop_revops_agents.Base.{
  ℕ, String, Bool, true, false, none, some, List, [], ◌∷◌, ◌<>◌, ◌||◌, str_eq, if◌then◌else◌,
}
use loop_revops_agents.World.{
  Env, ok, M, pure, raise, raise_if, ◌>>=◌, ◌>>◌, bad_value, type_error, attribute_error,
}
use loop_revops_agents.World.Values.{
  Json, flag, text, object, Fields, end, field, find_field, get, put, truthy, or_else,
}
use loop_revops_agents.Salesforce.{create_record}
use loop_revops_agents.Dispatcher.{send, config_with}
use loop_revops_agents.Cs.{item_of}
use loop_revops_agents.Onboarding.{handle_created}

abbrev pub required_booleans : List String
required_booleans =
    "Auto_Iterate__c" ∷ "Balance_Discovery_Meeting__c" ∷ "Balance_Included__c"
    ∷ "Embargoed_Onboarding__c" ∷ "Full_Recon__c" ∷ "Headroom_Analysis__c"
    ∷ "Needs_Oversight_Check__c" ∷ []

abbrev pub forbidden_fields : List String
forbidden_fields =
    "ACV__c" ∷ "AE__c" ∷ "Account_Type__c" ∷ "Active_Products__c" ∷ "Close_Date__c"
    ∷ "Contract_Length_months__c" ∷ "Locs__c" ∷ "Opportunity_Owner__c" ∷ "Age__c" ∷ "OPP_Type__c"
    ∷ "CSM_owner_and_CSM_2__c" ∷ []

-- `opp.get("AccountId", "")`
abbrev account_id_of : Fields → Json
account_id_of opp = elim (find_field "AccountId" opp) [ none ↦ text "" | some v ↦ v ]

-- `account.get("Name") or opp.get("AccountId", "")`
abbrev pub name_in : Fields → Json → M Json
name_in opp (object account) = pure (or_else (get "Name" account) (account_id_of opp))
name_in opp _ = raise attribute_error

unfoldable pub account_name : Fields → M Json
account_name opp = name_in opp (or_else (get "Account" opp) (object end))

-- `f"{account_name} Onboarding"`, of a name that is a text. No other value is printed.
abbrev pub title_of : Json → M String
title_of (text s) = pure (s <> " Onboarding")
title_of _ = raise type_error

-- `for name in names: fields[name] = False`
abbrev pub put_false : List String → Fields → Fields
put_false [] d = d
put_false (name ∷ names) d = put_false names (put name (flag false) d)

abbrev pub has_key : String → Fields → Bool
has_key k d = elim (find_field k d) [ none ↦ false | some _ ↦ true ]

-- `set(fields) & FORBIDDEN_FIELDS`
unfoldable pub overlaps : Fields → List String → Bool
overlaps d [] = false
overlaps d (name ∷ names) = has_key name d || overlaps d names

-- The five fields that are always set.
abbrev pub base_fields : String → Json → Fields
base_fields title opp_id = field "Name" (text title) (
    field "Opportunity__c" opp_id (
      field "Overall_Onboarding_Status__c" (text "Not Started") (
        field "JK_Onboarding_Stage__c" (text "Getting Access")
          (field "Kickoff_Status__c" (text "Not Scheduled") end))))

abbrev pub with_owner : Json → Fields → Fields
with_owner owner d = if truthy owner then put "OwnerId" owner d else d

-- The dictionary that is built, before the check of its keys.
abbrev pub onboarding_fields : String → Json → Json → Fields
onboarding_fields title opp_id owner =
    put_false required_booleans (with_owner owner (base_fields title opp_id))

unfoldable pub build_fields : Fields → M Fields
build_fields opp = do
  name ← account_name opp
  title ← title_of (or_else name (text "Unnamed Account"))
  opp_id ← item_of "Id" opp
  let fields = onboarding_fields title opp_id (get "OwnerId" opp)
  raise_if (overlaps fields forbidden_fields) bad_value
  pure fields

-- `try: … except Exception: log.warning(…)`
abbrev pub attempt : {A : Type 0} → M A → M (Unit {0})
attempt m w = (ok tt, (m w).1)

-- `_notify_cs_team`, the text of whose message is left out.
unfoldable pub notify_cs_team : Env → Fields → M (Unit {0})
notify_cs_team env opp = attempt (do
  account_name opp
  item_of "Id" opp
  send env (text (config_with env.config "ONBOARDING_CS_TEAM_CHANNEL" "#cs-team")) none)

-- `if onboarding_id: …`, of an id that is a text.
abbrev pub enforce : Env → ℕ → Fields → Json → M (Unit {0})
enforce env now opp (text onboarding_id) =
    if str_eq onboarding_id "" then pure tt else attempt (handle_created env now opp onboarding_id)
enforce env now opp _ = pure tt

unfoldable pub create_from_opp : Env → ℕ → Fields → ℕ → M Fields
create_from_opp env now opp gate_id = do
  fields ← build_fields opp
  result ← create_record env "Onboarding__c" fields "onboarding" (some gate_id)
  notify_cs_team env opp
  (if truthy (get "OwnerId" fields) then pure tt else enforce env now opp (get "id" result))
  pure result
