-- ===== src/Onboarding/Stalls.antt =====
-- agents/onboarding/milestone_monitor.py: the business days, the fingerprint of a stage and the table
-- of the alerts. A date is its ordinal, as date.toordinal counts.
pub mod Weeks
pub mod Alerted
use loop_revops_agents.Base.{
  ℕ, zero, suc, ◌+◌, ◌-◌, ◌*◌, ◌%◌, String, Bool, true, false, Option, none, some, List, [], ◌∷◌,
  ◌<>◌, ◌&&◌, ltb, leb, str_eq, if◌then◌else◌,
}
use loop_revops_agents.World.Rows.{hour}

-- `date.weekday()`, from Monday; the ordinal 1 is a Monday.
abbrev pub weekday : ℕ → ℕ
weekday cursor = (cursor + 6) % 7

-- What one turn of the loop adds to `days`.
abbrev pub counted : ℕ → ℕ
counted cursor = if ltb (weekday cursor) 5 then 1 else 0

-- The loop over the days from `cursor`, of which `left` are left.
unfoldable pub count_days : ℕ → ℕ → ℕ
count_days zero cursor = 0
count_days (suc left) cursor = counted cursor + count_days left (cursor + 1)

unfoldable pub business_days_between : ℕ → ℕ → ℕ
business_days_between start end = if leb end start then 0 else count_days (end - start) start

-- A value of the record, or the dash that stands for none and for an empty text.
abbrev shown : Option String → String
shown none = "—"
shown (some s) = if str_eq s "" then "—" else s

abbrev pub stage_fingerprint : Option String → Option String → String
stage_fingerprint jk_stage overall = "jk=" <> shown jk_stage <> ";overall=" <> shown overall

-- A row of onboarding_stall_alerts, whose key is the first two columns.
pub record Alert : Type 0 where
  pub onboarding_id : String
  pub fingerprint : String
  pub last_alerted_at : ℕ

-- The test on the key.
abbrev pub same_key : String → String → String → String → Bool
same_key onboarding_id fingerprint other_id other =
    str_eq onboarding_id other_id && str_eq fingerprint other

unfoldable pub last_alert : String → String → List Alert → Option ℕ
last_alert onboarding_id fingerprint [] = none
last_alert onboarding_id fingerprint (a ∷ rows) =
    let rest = last_alert onboarding_id fingerprint rows in
    if same_key a.onboarding_id a.fingerprint onboarding_id fingerprint
    then some a.last_alerted_at
    else rest

abbrev pub alert_dedup_window : ℕ
alert_dedup_window = 72 * hour

unfoldable pub recently_alerted : ℕ → String → String → List Alert → Bool
recently_alerted now onboarding_id fingerprint rows =
    elim (last_alert onboarding_id fingerprint rows) [
      | none ↦ false
      | some last ↦ ltb now (last + alert_dedup_window)
    ]

-- `INSERT … ON CONFLICT … DO UPDATE SET last_alerted_at`
unfoldable pub record_alert : ℕ → String → String → List Alert → List Alert
record_alert now onboarding_id fingerprint [] =
    (record { onboarding_id = onboarding_id; fingerprint = fingerprint; last_alerted_at = now })
    ∷ []
record_alert now onboarding_id fingerprint (a ∷ rows) =
    let rest = record_alert now onboarding_id fingerprint rows in
    if same_key a.onboarding_id a.fingerprint onboarding_id fingerprint
    then (record a { last_alerted_at = now }) ∷ rows
    else a ∷ rest
