-- ===== src/Suppression.antt =====
-- agents/top_of_funnel/suppression.py: whether an email may be contacted. The answers of the two
-- queries and the competitors' domains are arguments; a row's date is the date that it parses to.
pub mod Cached
use loop_revops_agents.Base.{
  ℕ, ◌+◌, ◌*◌, ◌/◌, String, Bool, true, false, Option, none, some, List, [], ◌∷◌, ◌++◌, ◌&&◌, ◌||◌,
  not, leb, str_eq, contains, select, length, if◌then◌else◌, ◌<>◌,
}
use loop_revops_agents.Base.Texts.{lower, strip, after_at}
use loop_revops_agents.World.{World}
use loop_revops_agents.World.Values.{Fields, text, field, end}
use loop_revops_agents.World.Rows.{day, plain_target}
use loop_revops_agents.Governance.Gates.{Entry, write_audit}

pub record SuppressionResult : Type 0 where
  pub suppressed : Bool
  pub reason : String
  pub source : String

-- A row of `suppression_cache`.
pub record CacheRow : Type 0 where
  pub email : String
  pub result : SuppressionResult
  pub checked_at : ℕ

-- The cache, and the world that the audit log is part of.
pub record Store : Type 0 where
  pub cache : List CacheRow
  pub world : World

-- `checked_at >= cutoff`
abbrev pub is_valid : ℕ → ℕ → CacheRow → Bool
is_valid now ttl_days r = leb now (r.checked_at + ttl_days * day)

-- `_cache_lookup`; the source of a row is never empty.
unfoldable pub cache_lookup : ℕ → ℕ → String → List CacheRow → Option SuppressionResult
cache_lookup now ttl_days email [] = none
cache_lookup now ttl_days email (r ∷ rs) =
    let rest = cache_lookup now ttl_days email rs in
    if str_eq r.email email && is_valid now ttl_days r then some r.result else rest

-- `INSERT … ON CONFLICT(email) DO UPDATE`
unfoldable pub upsert : CacheRow → List CacheRow → List CacheRow
upsert c [] = c ∷ []
upsert c (r ∷ rs) = let rest = upsert c rs in if str_eq r.email c.email then c ∷ rs else r ∷ rest

-- `_cache_write`
unfoldable pub cache_write : ℕ → String → SuppressionResult → Store → Store
unfolding upsert
cache_write now email result s = record s {
  cache = upsert (record { email = email; result = result; checked_at = now }) s.cache;
}

unfoldable pub clear_expired : ℕ → ℕ → Store → ℕ × Store
clear_expired now ttl_days s = (
  length (select (λ r. not (is_valid now ttl_days r)) s.cache),
  record s { cache = select (is_valid now ttl_days) s.cache },
)

-- A date as it is written, with the day since the epoch that it parses to.
pub record Date : Type 0 where
  pub written : String
  pub day : Option ℕ

pub record Account : Type 0 where
  pub kind : Option String
  pub last_activity : Option Date

-- A lead or a contact; a lead has no account.
pub record Person : Type 0 where
  pub opted_out : Bool
  pub do_not_call : Bool
  pub account : Option Account

abbrev hit : String → String → SuppressionResult
hit reason source = record { suppressed = true; reason = reason; source = source }

-- Layer 2, on leads and then contacts.
abbrev pub do_not_contact : List Person → Option SuppressionResult
do_not_contact [] = none
do_not_contact (p ∷ ps) =
    let rest = do_not_contact ps in
    if p.opted_out
    then some (hit "HasOptedOutOfEmail=true" "sf_dnc")
    else if p.do_not_call
    then some (hit "DoNotCall=true" "sf_dnc")
    else rest

abbrev kind_of : Option Account → String
kind_of none = ""
kind_of (some a) = elim a.kind [ none ↦ "" | some s ↦ s ]

-- Layer 3, on contacts.
unfoldable pub customer : List Person → Option SuppressionResult
unfolding lower
customer [] = none
customer (p ∷ ps) =
    let rest = customer ps in
    if str_eq (lower (kind_of p.account)) "customer"
    then some (hit ("Account.Type=" <> kind_of p.account) "sf_customer")
    else rest

abbrev recent_activity_days : ℕ
recent_activity_days = 90

abbrev dated : ℕ → Date → Option SuppressionResult
dated today d = elim d.day [
  | none ↦ none
  | some t ↦
      if leb today (t + recent_activity_days)
      then some (hit ("LastActivityDate=" <> d.written <> " within 90d") "sf_recent_activity")
      else none
]

abbrev recent_of : ℕ → Option Account → Option SuppressionResult
recent_of today none = none
recent_of today (some a) = elim a.last_activity [ none ↦ none | some d ↦ dated today d ]

abbrev first : Option SuppressionResult → Option SuppressionResult → Option SuppressionResult
first none rest = rest
first (some r) rest = some r

-- Layer 4, on contacts.
unfoldable pub recent_activity : ℕ → List Person → Option SuppressionResult
recent_activity today [] = none
recent_activity today (p ∷ ps) = first (recent_of today p.account) (recent_activity today ps)

-- The leads and the contacts of an email; `none` is a `SalesforceError` of either query.
abbrev pub Answer : Type 0
Answer = Option (List Person × List Person)

abbrev pub fail_open : SuppressionResult
fail_open = record { suppressed = false; reason = "sf_outage"; source = "fail_open" }

abbrev audit_entry : String → String → Fields → Entry
audit_entry action email after = record {
  agent_name = "top_of_funnel";
  action = action;
  target = some (plain_target email);
  before = none;
  after = some after;
  approval_gate_id = none;
  rate_limit_bucket = none;
  run_id = none;
}

abbrev audited : Entry → Store → Store
audited e s = record s { world = (write_audit e s.world).1 }

-- `_check_salesforce`
unfoldable pub check_salesforce : ℕ → String → Answer → Store → Option SuppressionResult × Store
unfolding customer recent_activity write_audit
check_salesforce today email none s = (
  some fail_open,
  audited (audit_entry "suppression_check_failed" email (field "error" (text "sf_outage") end)) s,
)
check_salesforce today email (some (leads, contacts)) s = (
  first (do_not_contact (leads ++ contacts))
      (first (customer contacts) (recent_activity today contacts)),
  s,
)

-- `(email or "").strip().lower()`
abbrev pub email_key : Option String → String
email_key none = ""
email_key (some e) = lower (strip e)

-- Whether the text holds an `@`.
unfoldable pub has_at : String → Bool
unfolding after_at
has_at s = elim (after_at s) [ none ↦ false | some _ ↦ true ]

-- `_domain_from_email`: one `@`, with a text before it and a text after it.
unfoldable pub domain_from_email : String → String
unfolding after_at lower
domain_from_email email = elim (after_at email) [
  | none ↦ ""
  | some rest ↦ if str_eq email ("@" <> rest) || has_at rest then "" else lower rest
]

abbrev or_domain : Option String → String → String
or_domain none email = domain_from_email email
or_domain (some d) email = if str_eq d "" then domain_from_email email else lower d

-- The outcome after the layers of Salesforce, and whether it is to be cached.
unfoldable pub judged : Option SuppressionResult → String → List String → SuppressionResult × Bool
judged (some r) domain competitors = (r, r.suppressed)
judged none domain competitors = (
  (if not (str_eq domain "") && contains domain competitors
      then hit ("competitor:" <> domain) "competitor"
      else record { suppressed = false; reason = ""; source = "none" }),
  true,
)

abbrev keep_if : ℕ → String → SuppressionResult × Bool → Store → SuppressionResult × Store
keep_if now email (r, true) s = (r, cache_write now email r s)
keep_if now email (r, false) s = (r, s)

-- The check of an email that is not in the cache.
unfoldable pub fresh_check :
    ℕ → String → Option String → Answer → List String → Store → SuppressionResult × Store
unfolding check_salesforce judged cache_write domain_from_email
fresh_check now email domain answer competitors s =
    let (sf_hit, s') = check_salesforce (now / day) email answer s in
    keep_if now email (judged sf_hit (or_domain domain email) competitors) s'

abbrev or_fresh :
    Option SuppressionResult
    → (Store → SuppressionResult × Store)
    → Store
    → SuppressionResult × Store
or_fresh none check s = check s
or_fresh (some r) check s = (r, s)

unfoldable pub is_suppressed :
    ℕ → ℕ → Option String → Option String → Answer → List String → Store → SuppressionResult × Store
unfolding cache_lookup fresh_check lower strip after_at
is_suppressed now ttl_days email domain answer competitors s =
    let key = email_key email in
    if not (has_at key)
    then (hit "invalid_email" "input", s)
    else or_fresh (cache_lookup now ttl_days key s.cache)
        (fresh_check now key domain answer competitors) s

-- `add_manual`; whether the email was taken is returned.
unfoldable pub add_manual : ℕ → Option String → String → Store → Bool × Store
unfolding cache_write write_audit lower strip after_at
add_manual now email reason s =
    let key = email_key email in
    if not (has_at key) then (false, s) else (
      true,
      audited (audit_entry "suppression_manual_add" key (field "reason" (text reason) end))
          (cache_write now key (hit (if str_eq reason "" then "manual" else reason) "manual") s),
    )
