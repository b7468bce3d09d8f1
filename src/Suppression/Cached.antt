-- ===== src/Suppression/Cached.antt =====
-- What the cache of verdicts does for the next check.
use loop_revops_agents.Base.{
  ℕ, ◌+◌, ◌*◌, ◌≤◌, ◌≡◌, refl, String, true, Option, some, List, [], ◌∷◌, arith, str_eq, eq_iff,
  if◌then◌else◌, Bool-cases, inl, inr,
}
use loop_revops_agents.World.Rows.{day}
use loop_revops_agents.Suppression.{
  CacheRow, Store, Answer, cache_lookup, upsert, cache_write, is_suppressed, add_manual, email_key,
  has_at,
}

-- The row written is found for as long as it is valid.
lookup-upsert :
    (now ttl : ℕ) (c : CacheRow) (rows : List CacheRow)
    → now ≤ c.checked_at + ttl * day
    → cache_lookup now ttl c.email (upsert c rows) ≡ some c.result
unfolding cache_lookup upsert
lookup-upsert now ttl c [] valid = ground (arith, eq_iff c.email c.email)
lookup-upsert now ttl c (r ∷ rs) valid = elim (Bool-cases (str_eq r.email c.email)) [
  | inl same ↦ rw same (ground (arith, eq_iff c.email c.email))
  | inr other ↦ rw (other, other) (lookup-upsert now ttl c rs valid)
]

-- An email that was suppressed by hand stays suppressed for the days of the cache, whatever
-- Salesforce and the competitors' list say, and the check writes nothing.
pub add_manual_kept :
    (now later ttl : ℕ) (email domain : Option String) (reason : String) (answer : Answer)
    (competitors : List String) (s : Store)
    → has_at (email_key email) ≡ true
    → later ≤ now + ttl * day
    → let s' = (add_manual now email reason s).1 in
      is_suppressed later ttl email domain answer competitors s' ≡ (
        record {
          suppressed = true;
          reason = if str_eq reason "" then "manual" else reason;
          source = "manual";
        },
        s',
      )
unfolding add_manual is_suppressed cache_write
add_manual_kept now later ttl email domain reason answer competitors s valid soon =
    let row : CacheRow = record {
      email = email_key email;
      result = record {
        suppressed = true;
        reason = if str_eq reason "" then "manual" else reason;
        source = "manual";
      };
      checked_at = now;
    } in
    rw (valid, lookup-upsert later ttl row s.cache soon) refl
