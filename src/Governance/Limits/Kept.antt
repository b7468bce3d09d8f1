-- ===== src/Governance/Limits/Kept.antt =====
-- What a rate limit leaves alone: all but its own table.
use loop_revops_agents.Base.{
  ℕ, ◌+◌, ◌≡◌, refl, String, Bool, Option, List, ◌&&◌, ◌||◌, not, ltb, str_eq, Bool-cases,
  Option-cases, inl, inr,
}
use loop_revops_agents.World.{World, unknown_bucket, bad_mode, or_raise, raise_if}
use loop_revops_agents.World.Rows.{Rate}
use loop_revops_agents.World.Keeps.{Keeps, Keeps-bind, or_raise-Keeps, raise_if-Keeps}
use loop_revops_agents.Governance.Tiers.{limit_of}
use loop_revops_agents.Governance.Limits.{
  check_rate_limit, count_call, find_rate, resolved_mode, window_of,
}

module _ {X : Type 0} (part : World → X)
    (apart : (w : World) (rates : List Rate) → part (record w { rates = rates }) ≡ part w) where
  count_call-Keeps :
      (limit : ℕ) (hard : Bool) (bucket : String) (window : ℕ)
      → Keeps part (count_call limit hard bucket window)
  unfolding count_call
  count_call-Keeps limit hard bucket window w =
      elim (Option-cases (find_rate bucket window w.rates)) [
        | inl fresh ↦ rw (count_call, fresh) (apart w _)
        | inr (r, found) ↦ elim (Bool-cases (ltb limit (r.count + 1) && hard)) [
          | inl full ↦ rw (count_call, found, full) refl
          | inr room ↦ rw (count_call, found, room) (apart w _)
        ]
      ]

  pub limit-Keeps :
      (now s : ℕ) (bucket : String) (mode : Option String)
      → Keeps part (check_rate_limit now bucket s mode)
  unfolding check_rate_limit
  limit-Keeps now s bucket mode =
      let resolved = resolved_mode bucket mode in
      let unknown = not (str_eq resolved "hard" || str_eq resolved "soft") in
      Keeps-bind part (or_raise (limit_of bucket) unknown_bucket) _
        (or_raise-Keeps part (limit_of bucket) unknown_bucket)
        λ limit.
          Keeps-bind part {B = ℕ} (raise_if unknown bad_mode) _
            (raise_if-Keeps part unknown bad_mode)
            λ _. count_call-Keeps limit (str_eq resolved "hard") bucket (window_of now s)
