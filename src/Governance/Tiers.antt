-- ===== src/Governance/Tiers.antt =====
-- shared/governance.py: `Tier`, `APPROVAL_TIERS`, `RATE_LIMITS`, `SOFT_LIMIT_BUCKETS` and
-- `classify_bulk_update`. The texts of `gate`, `approver` and `review_window` are the constructors
-- of enumerations.
use loop_revops_agents.Base.{
  ℕ, String, Bool, true, false, Option, none, some, List, [], ◌∷◌, leb, ltb, lookup, contains,
  if◌then◌else◌,
}

pub data GateKind : Type 0 where
  auto_notify slack_button slack_explicit full_workflow dual_approval_cooldown : GateKind
  sandbox_then_approve rate_limit_and_review explicit dual_approval draft_review : GateKind
  auto_approve : GateKind

pub data Approver : Type 0 where
  o_or_dept_head o_only henry_or_anand dept_head jackie_and_o system jackie_or_o : Approver
  jackie_or_dept_head : Approver

pub record Tier : Type 0 where
  pub gate : Option GateKind
  pub approver : Option Approver
  pub range : Option (ℕ × Option ℕ)
  pub requires_justification : Bool
  pub review_window : Option String
  pub cooldown_hours : Option ℕ

-- A tier with a gate, an approver and the demand for a justification, and no other field set.
abbrev tier : GateKind → Approver → Bool → Tier
tier g a j = record {
  gate = some g;
  approver = some a;
  range = none;
  requires_justification = j;
  review_window = none;
  cooldown_hours = none;
}

abbrev read_tier : Tier
read_tier = record {
  gate = none;
  approver = none;
  range = none;
  requires_justification = false;
  review_window = none;
  cooldown_hours = none;
}

abbrev single_tier : Tier
single_tier = record read_tier { gate = some auto_notify }

abbrev small_tier : Tier
small_tier = record (tier slack_button o_or_dept_head false) { range = some (2, some 99) }

abbrev large_tier : Tier
large_tier = record (tier slack_explicit o_only true) { range = some (100, none) }

abbrev sf_schema_change : Tier
sf_schema_change = tier full_workflow o_only true

abbrev delete_tier : Tier
delete_tier = record (tier dual_approval_cooldown o_only true) { cooldown_hours = some 24 }

abbrev outbound_tier : Tier
outbound_tier = record (tier rate_limit_and_review o_only false) {
  review_window = some "08:00_daily";
}

-- `APPROVAL_TIERS`
abbrev approval_tiers : List (String × Tier)
approval_tiers =
    ("read_query", read_tier)
    ∷ ("single_record_update", single_tier)
    ∷ ("bulk_update_small", small_tier)
    ∷ ("bulk_update_large", large_tier)
    ∷ ("sf_schema_change", sf_schema_change)
    ∷ ("sf_schema_create", sf_schema_change)
    ∷ ("sf_schema_modify", sf_schema_change)
    ∷ ("sf_schema_delete", delete_tier)
    ∷ ("sf_schema_delete_confirm", tier slack_explicit o_only false)
    ∷ ("user_provisioning", tier slack_explicit o_only false)
    ∷ ("permission_grant", tier slack_explicit o_only true)
    ∷ ("license_deactivation", tier slack_explicit o_only false)
    ∷ ("apex_flow_deploy", tier sandbox_then_approve o_only false)
    ∷ ("outbound_sequence", outbound_tier)
    ∷ ("commission_adjustment", tier explicit o_only false)
    ∷ ("contact_merge", tier dual_approval o_or_dept_head true)
    ∷ ("account_merge", tier dual_approval o_or_dept_head true)
    ∷ ("territory_reassign", tier slack_explicit henry_or_anand true)
    ∷ ("quota_upsert", tier slack_explicit henry_or_anand true)
    ∷ ("customer_facing_comms", tier draft_review dept_head false)
    ∷ ("mark_churned", tier dual_approval jackie_and_o false)
    ∷ ("onboarding_auto_create", tier auto_approve system false)
    ∷ ("csm_reassignment", tier slack_button jackie_or_o false)
    ∷ ("onboarding_complete", tier slack_button jackie_or_o false)
    ∷ ("skip_milestone", tier slack_explicit jackie_or_o true)
    ∷ ("slt_draft_review", tier slack_button o_only false)
    ∷ ("cs_churn_outreach", tier draft_review dept_head false)
    ∷ ("mark_churned_request", tier slack_button jackie_or_dept_head true)
    ∷ ("mark_churned_confirm", tier slack_button o_only true)
    ∷ ("suppression_override", tier slack_button o_or_dept_head true)
    ∷ []

-- `APPROVAL_TIERS.get(action_type)`
unfoldable pub tier_of : String → Option Tier
tier_of action_type = lookup action_type approval_tiers

-- `bool(tier and tier.approver == "jackie_and_o")`
abbrev pub is_dual : Option Tier → Bool
is_dual none = false
is_dual (some t) = elim t.approver [ none ↦ false | some jackie_and_o ↦ true | some _ ↦ false ]

-- `tier.cooldown_hours if tier else None`
abbrev pub cooldown_of : Option Tier → Option ℕ
cooldown_of none = none
cooldown_of (some t) = t.cooldown_hours

abbrev pub demands_justification : Option Tier → Bool
demands_justification none = false
demands_justification (some t) = t.requires_justification

-- `tier and tier.gate == "auto_approve"`
abbrev pub is_auto_approve : Option Tier → Bool
is_auto_approve none = false
is_auto_approve (some t) = elim t.gate [ none ↦ false | some auto_approve ↦ true | some _ ↦ false ]

-- `RATE_LIMITS`
abbrev rate_limits : List (String × ℕ)
rate_limits =
    ("nooks_sequences_daily", 50)
    ∷ ("sf_lead_creation_daily", 200)
    ∷ ("sf_bulk_update_hourly", 500)
    ∷ ("renewal_outreach_daily", 10)
    ∷ ("revops_bulk_update_daily", 500)
    ∷ ("revops_schema_changes_weekly", 10)
    ∷ ("revops_describe_calls_hourly", 200)
    ∷ ("revops_metadata_deploy_daily", 5)
    ∷ []

-- `RATE_LIMITS.get(bucket)`
unfoldable pub limit_of : String → Option ℕ
limit_of bucket = lookup bucket rate_limits

-- `bucket in SOFT_LIMIT_BUCKETS`
unfoldable pub is_soft_bucket : String → Bool
is_soft_bucket bucket = contains bucket ("revops_schema_changes_weekly" ∷ [])

unfoldable pub classify_bulk_update : ℕ → String
classify_bulk_update count =
    if leb count 1
    then "single_record_update"
    else if ltb count 100
    then "bulk_update_small"
    else "bulk_update_large"
