-- ===== src/Governance/Limits.antt =====
-- `check_rate_limit` of shared/governance.py. `now` is the clock at the call, in microseconds.
pub mod Count
pub mod Budget
pub mod Kept
use loop_revops_agents.Base.{
  ℕ, ◌+◌, ◌-◌, ◌*◌, ◌/◌, String, Bool, true, false, Option, none, some, List, [], ◌∷◌, ◌++◌, ◌&&◌,
  ◌||◌, not, leb, ltb, ◌==◌, str_eq, if◌then◌else◌,
}
use loop_revops_agents.Base.Table.{next_id, update_id}
use loop_revops_agents.World.{
  World, Result, ok, err, M, raise, or_raise, raise_if, ◌>>=◌, ◌>>◌, rate_limit_exceeded,
  unknown_bucket, bad_mode,
}
use loop_revops_agents.World.Rows.{Rate, hour, day}
use loop_revops_agents.Governance.Tiers.{limit_of, is_soft_bucket}

-- Midnight UTC of the Monday of the ISO week: day 0 is a Thursday, and day 4 a Monday.
abbrev pub monday : ℕ → ℕ
monday now = ((now / day + 3) / 7 * 7 - 3) * day

-- The start of the window that holds `now`.
unfoldable pub window_of : ℕ → ℕ → ℕ
window_of now window_seconds =
    if leb 604800 window_seconds
    then monday now
    else if leb 86400 window_seconds
    then now / day * day
    else now / hour * hour

-- `mode or ("soft" if bucket in SOFT_LIMIT_BUCKETS else "hard")`
unfoldable pub resolved_mode : String → Option String → String
resolved_mode bucket mode =
    let default = if is_soft_bucket bucket then "soft" else "hard" in
    elim mode [ none ↦ default | some m ↦ if str_eq m "" then default else m ]

-- `SELECT id, count FROM rate_limits WHERE bucket = :b AND window_start = :w`
unfoldable pub find_rate : String → ℕ → List Rate → Option Rate
find_rate bucket window [] = none
find_rate bucket window (r ∷ rs) =
    if str_eq r.bucket bucket && (r.window_start == window)
    then some r
    else find_rate bucket window rs

abbrev pub new_rate : String → ℕ → ℕ → List Rate → Rate
new_rate bucket window limit rates = record {
  id = next_id (λ r. r.id) rates;
  bucket = bucket;
  count = 1;
  window_start = window;
  limit_value = limit;
}

abbrev pub with_count : ℕ → Rate → Rate
with_count c r = record r { count = c }

-- The transaction, in the mode `hard` or not. The first call of a window is not tested.
unfoldable pub count_call : ℕ → Bool → String → ℕ → M ℕ
count_call limit hard bucket window w = elim (find_rate bucket window w.rates) [
  | none ↦ (ok 1, record w { rates = w.rates ++ new_rate bucket window limit w.rates ∷ [] })
  | some r ↦ if ltb limit (r.count + 1) && hard then (err rate_limit_exceeded, w) else (
    ok (r.count + 1),
    record w { rates = update_id (λ x. x.id) r.id (with_count (r.count + 1)) w.rates },
  )
]

unfoldable pub check_rate_limit : ℕ → String → ℕ → Option String → M ℕ
check_rate_limit now bucket window_seconds mode = do
  limit ← or_raise (limit_of bucket) unknown_bucket
  let resolved = resolved_mode bucket mode
  raise_if (not (str_eq resolved "hard" || str_eq resolved "soft")) bad_mode
  count_call limit (str_eq resolved "hard") bucket (window_of now window_seconds)
