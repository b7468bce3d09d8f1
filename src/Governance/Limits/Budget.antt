-- ===== src/Governance/Limits/Budget.antt =====
-- The budget of a bucket: how many calls of `check_rate_limit` get through in one window.
use loop_revops_agents.Base.{
  ℕ, ◌+◌, ◌*◌, ◌%◌, ◌≤◌, ◌<◌, ◌≡◌, refl, String, Bool, true, false, Option, some, List, [], ◌∷◌,
  ◌&&◌, arith, leb, eq_iff, if◌then◌else◌, All, length, Bool-cases, inl, inr, min, ◌∙◌, leb→le, ap,
}
use loop_revops_agents.World.{World, Result, ok, err, rate_limit_exceeded}
use loop_revops_agents.World.Rows.{hour, day}
use loop_revops_agents.Governance.Tiers.{limit_of}
use loop_revops_agents.Governance.Limits.{count_call, check_rate_limit, window_of, resolved_mode}
use loop_revops_agents.Governance.Limits.Count.{count_at, IsKeyed, count_call_lem, admitted_call}

-- A window of a week, a day or an hour holds the time of the call, is as long as its name says, and
-- starts at a whole hour, at midnight, or at midnight on a Monday: the week from Monday 5 January
-- 1970 on.
pub window_bounds :
    (now window_seconds : ℕ)
    → 4 * day ≤ now
    → let start = window_of now window_seconds in
      let weekly = leb 604800 window_seconds in
      let len = if weekly then 7 * day else if leb 86400 window_seconds then day else hour in
      let since_monday = if weekly then 3 * day else 0 in
      (start ≤ now) × (now < start + len) × ((start + since_monday) % len ≡ 0)
unfolding window_of
window_bounds now s h = ground arith

abbrev pub tally : Result ℕ → ℕ × World → ℕ × World
tally (ok _) (n, w) = (n + 1, w)
tally (err _) (n, w) = (n, w)

-- The calls at the times of a list, one after the other: how many returned, and the world after.
unfoldable pub call_each : List ℕ → String → ℕ → Option String → World → ℕ × World
call_each [] bucket s mode w = (0, w)
call_each (now ∷ times) bucket s mode w =
    let (r, w') = check_rate_limit now bucket s mode w in tally r (call_each times bucket s mode w')

and_true : (b : Bool) → (b && true) ≡ b
and_true true = refl
and_true false = refl

-- One call in the hard mode.
pub check_hard :
    (now s limit : ℕ) (bucket : String) (mode : Option String) (w : World)
    → limit_of bucket ≡ some limit
    → resolved_mode bucket mode ≡ "hard"
    → 0 < limit
    → IsKeyed w.rates
    → let t = window_of now s in
      check_rate_limit now bucket s mode w ≡ (
        if leb limit (count_at bucket t w)
        then (err rate_limit_exceeded, w)
        else (ok (count_at bucket t w + 1), (count_call limit false bucket t w).1))
unfolding check_rate_limit
check_hard now s limit bucket mode w has hard pos keyed =
    let full : Result ℕ × World = (err rate_limit_exceeded, w) in
    let c = count_at bucket (window_of now s) w in
    let next : Result ℕ × World =
      (ok (c + 1), (count_call limit false bucket (window_of now s) w).1) in
    rw (has, hard)
      (count_call_lem limit true bucket (window_of now s) w pos keyed
        ∙ ap (λ (c : Bool). if c then full else next)
            (and_true (leb limit (count_at bucket (window_of now s) w))))

call_each_step :
    (now s : ℕ) (bucket : String) (mode : Option String) (times : List ℕ) (w : World) (r : Result ℕ)
    (w' : World)
    → check_rate_limit now bucket s mode w ≡ (r, w')
    → call_each (now ∷ times) bucket s mode w ≡ tally r (call_each times bucket s mode w')
unfolding call_each
call_each_step now s bucket mode times w r w' h =
    ap (λ (p : Result ℕ × World). tally p.0 (call_each times bucket s mode p.1)) h

-- Of any calls in one window of a bucket in the hard mode exactly as many return as the limit
-- leaves; the others raise and count nothing.
pub budget :
    (s limit t : ℕ) (bucket : String) (mode : Option String) (times : List ℕ) (w : World)
    → limit_of bucket ≡ some limit
    → resolved_mode bucket mode ≡ "hard"
    → 0 < limit
    → IsKeyed w.rates
    → count_at bucket t w ≤ limit
    → All (λ now. window_of now s ≡ t) times
    → let (n, w') = call_each times bucket s mode w in
      (count_at bucket t w + n ≡ min limit (count_at bucket t w + length times))
      × (count_at bucket t w' ≡ count_at bucket t w + n)
budget s limit t bucket mode [] w has hard pos keyed fits in_window =
    unfold call_each in (omega arith, omega arith)
budget s limit t bucket mode (now ∷ times) w has hard pos keyed fits in_window =
    let c = count_at bucket t w in
    let next = (count_call limit false bucket t w).1 in
    let here = check_hard now s limit bucket mode w has hard pos keyed in
    let (keyed', counts) = admitted_call limit bucket t w keyed in
    let more : count_at bucket t next ≡ c + 1 =
      counts bucket t ∙ ground (arith, eq_iff bucket bucket) in
    elim (Bool-cases (leb limit c)) [
      | inl full ↦
          let stop : check_rate_limit now bucket s mode w ≡ (err rate_limit_exceeded, w) =
            here ∙ (rw (in_window.0, full)) in
          let ih = budget s limit t bucket mode times w has hard pos keyed fits in_window.1 in
          rw (call_each_step now s bucket mode times w _ _ stop)
            (omega (arith, ih.0, leb→le limit c full), ih.1)
      | inr room ↦
          let go : check_rate_limit now bucket s mode w ≡ (ok (c + 1), next) =
            here ∙ (rw (in_window.0, room)) in
          let low : c < limit = ground arith in
          let ih =
            budget s limit t bucket mode times next has hard pos keyed' (omega (arith, more))
              in_window.1 in
          rw (call_each_step now s bucket mode times w _ _ go)
            (omega (arith, ih.0, more), omega (arith, ih.1, more))
    ]
