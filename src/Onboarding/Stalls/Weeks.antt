-- ===== src/Onboarding/Stalls/Weeks.antt =====
-- The business days of whole weeks.
use loop_revops_agents.Base.{
  ℕ, zero, suc, ◌+◌, ◌-◌, ◌*◌, ◌%◌, ◌≤◌, ◌≡◌, refl, sym, ap, ◌∙◌, true, false, leb, arith,
  Bool-cases, inl, inr,
}
use loop_revops_agents.Onboarding.Stalls.{counted, count_days, business_days_between}

counted_week : (c : ℕ) → counted (c + 7) ≡ counted c
counted_week c = let e : (c + 7 + 6) % 7 ≡ (c + 6) % 7 = omega arith in rw e refl

count_days_week : (k c : ℕ) → count_days k (c + 7) ≡ count_days k c
unfolding count_days
count_days_week zero c = refl
count_days_week (suc k) c =
    let shift : c + 7 + 1 ≡ (c + 1) + 7 = omega arith in
    rw (counted_week c, shift, count_days_week k (c + 1)) refl

count_days-add : (m n c : ℕ) → count_days (m + n) c ≡ count_days m c + count_days n (c + m)
unfolding count_days
count_days-add zero n c =
    let e : c + 0 ≡ c = omega arith in
    let none_yet : 0 + n ≡ n = omega arith in rw (e, none_yet) (omega arith)
count_days-add (suc m) n c =
    let shift : c + 1 + m ≡ c + suc m = omega arith in
    let head : suc m + n ≡ suc (m + n) = omega arith in
    let ih : count_days (m + n) (c + 1) ≡ count_days m (c + 1) + count_days n (c + suc m) =
      count_days-add m n (c + 1) ∙ ap (λ d. count_days m (c + 1) + count_days n d) shift in
    rw head (omega arith)

one_day : (c : ℕ) → count_days 1 c ≡ counted c
unfolding count_days
one_day c = omega arith

-- The seven days from any day on have five business days.
seven_days : (c : ℕ) → count_days 7 c ≡ 5
seven_days zero = unfold count_days in refl
seven_days (suc c) =
    let whole : count_days (1 + 7) c ≡ count_days 1 c + count_days 7 (c + 1) =
      count_days-add 1 7 c in
    let cut : count_days (7 + 1) c ≡ count_days 7 c + count_days 1 (c + 7) = count_days-add 7 1 c in
    let first : count_days 1 (c + 7) ≡ count_days 1 c = count_days_week 1 c in
    let earlier : count_days 7 c ≡ 5 = seven_days c in
    let now : suc c ≡ c + 1 = omega arith in rw now (omega arith)

count_weeks : (w r c : ℕ) → count_days (7 * w + r) c ≡ 5 * w + count_days r c
count_weeks zero r c = let e : 7 * 0 + r ≡ r = omega arith in rw e (omega arith)
count_weeks (suc w) r c =
    let split : 7 * suc w + r ≡ 7 + (7 * w + r) = omega arith in
    let first : count_days 7 c ≡ 5 = seven_days c in
    let later : count_days (7 * w + r) (c + 7) ≡ 5 * w + count_days r c =
      count_days_week (7 * w + r) c ∙ count_weeks w r c in
    let whole : count_days (7 + (7 * w + r)) c ≡ count_days 7 c + count_days (7 * w + r) (c + 7) =
      count_days-add 7 (7 * w + r) c in
    rw split (omega arith)

counted_le : (c : ℕ) → counted c ≤ 1
counted_le c = ground arith

count_days_le : (k c : ℕ) → count_days k c ≤ k
unfolding count_days
count_days_le zero c = omega arith
count_days_le (suc k) c =
    let one = counted_le c in let rest = count_days_le k (c + 1) in omega arith

-- The loop runs over the days that are left, also where there is none.
days_from : (s k : ℕ) → business_days_between s (s + k) ≡ count_days k s
unfolding business_days_between
days_from s zero = let e : leb (s + 0) s ≡ true = ground arith in rw e (unfold count_days in refl)
days_from s (suc k) =
    let e : leb (s + suc k) s ≡ false = ground arith in
    let d : s + suc k - s ≡ suc k = omega arith in rw (e, d) refl

days_le : (s e : ℕ) → business_days_between s e ≤ e - s
unfolding business_days_between
days_le s e = elim (Bool-cases (leb e s)) [
  | inl over ↦ rw over (omega arith)
  | inr before ↦ rw before (count_days_le (e - s) s)
]

-- From any day on, w weeks and r days have 5 w business days and those of the r days; and of the days
-- from a start to an end no more are business days than there are, so that an end that is not after
-- the start gives none.
pub business_days_between_lem :
    (start w r e : ℕ)
    → (business_days_between start (start + (7 * w + r))
        ≡ 5 * w + business_days_between start (start + r))
      × (business_days_between start e ≤ e - start)
business_days_between_lem start w r e = (
  days_from start (7 * w + r)
      ∙ count_weeks w r start
      ∙ ap (λ n. 5 * w + n) (sym (days_from start r)),
  days_le start e,
)
