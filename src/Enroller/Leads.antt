-- ===== src/Enroller/Leads.antt =====
-- Enrolment under the daily limit of the bucket `nooks_sequences_daily`.
use loop_revops_agents.Base.{
  ℕ, zero, suc, ◌++◌, ◌+◌, ◌-◌, ◌≤◌, ◌<◌, min, ◌≡◌, refl, sym, ap, subst, ◌∙◌, String, false, none,
  some, List, [], ◌∷◌, arith, ltb, leb, leb→le, eq_iff, All, length, if◌then◌else◌, Bool-cases, inl,
  inr,
}
use mathlib.Core.List.{append-nil, append_assoc}
use loop_revops_agents.Base.Slices.{take}
use loop_revops_agents.World.{
  World, SfCall, create_call, Error, Result, ok, err, rate_limit_exceeded,
}
use loop_revops_agents.World.Values.{Json, Fields, null}
use loop_revops_agents.World.Rows.{Rate, enrolled, failed}
use loop_revops_agents.Governance.Tiers.{limit_of, is_soft_bucket}
use loop_revops_agents.Governance.Limits.{
  check_rate_limit, count_call, window_of, resolved_mode, find_rate,
}
use loop_revops_agents.Governance.Limits.Count.{count_at, count_of, IsKeyed, admitted_call}
use loop_revops_agents.Governance.Limits.Budget.{check_hard}
use loop_revops_agents.Enroller.{
  Batch, Report, after_check, after_create, enroll_leads, lead_fields, record_enrollment,
  rate_bucket, add_failed, add_enrolled, sf_id_of,
}

abbrev limit : ℕ
limit = 50

-- The enrolments counted in the day that starts at `t`.
abbrev pub used : ℕ → World → ℕ
used t w = count_at rate_bucket t w

bucket_limit : limit_of rate_bucket ≡ some limit
unfolding limit_of
bucket_limit = refl

bucket_mode : resolved_mode rate_bucket none ≡ "hard"
unfolding resolved_mode is_soft_bucket
bucket_mode = refl

-- A lead is either stopped by the limit, or counted and handed to `create`.
check_lead :
    (now t : ℕ) (w : World)
    → IsKeyed w.rates
    → window_of now 86400 ≡ t
    → check_rate_limit now rate_bucket 86400 none w ≡ (
        if leb limit (used t w)
        then (err rate_limit_exceeded, w)
        else (ok (used t w + 1), (count_call limit false rate_bucket t w).1))
check_lead now t w keyed day =
    rw (← day)
      (check_hard now 86400 limit rate_bucket none w bucket_limit bucket_mode (omega arith) keyed)

-- The world in which `create` is called for a lead.
abbrev counted : ℕ → World → World
counted t w = (count_call limit false rate_bucket t w).1

counted-calls : (t : ℕ) (w : World) → (counted t w).calls ≡ w.calls
unfolding count_call
counted-calls t w = ground arith

-- One step of the loop, at a known outcome of the check.
pub lead_checked :
    (b : Batch) (now : ℕ) (l : String) (ls : List (ℕ × String)) (w : World) (r : Result ℕ × World)
    → check_rate_limit now rate_bucket 86400 none w ≡ r
    → enroll_leads b ((now, l) ∷ ls) w ≡ after_check b now l (enroll_leads b ls) r
unfolding enroll_leads
lead_checked b now l ls w r h = ap (after_check b now l (enroll_leads b ls)) h

-- How many leads a report tells of.
abbrev pub handled : Report → ℕ
handled r = length r.enrolled_leads + length r.failed_leads

-- The calls that create the records of some leads, in their order.
abbrev pub handed : Batch → List (ℕ × String) → List SfCall
handed b [] = []
handed b ((now, l) ∷ ls) = create_call b.sobject (lead_fields b l) ∷ handed b ls

none_handed : (b : Batch) (n : ℕ) (cs : List SfCall) → cs ≡ cs ++ handed b (take n [])
none_handed b zero cs = sym (append-nil cs)
none_handed b (suc n) cs = sym (append-nil cs)

-- What the loop promises from a world in which the day has some room left.
abbrev pub Promise : Batch → List (ℕ × String) → ℕ → World → Result Report × World → Type 0
Promise b leads t w (err e, v) = ⊥
Promise b leads t w (ok r, v) =
    (handled r ≡ min (length leads) (limit - used t w))
    × (r.rate_limit_hit ≡ ltb (limit - used t w) (length leads))
    × (used t v ≡ used t w + handled r)
    × (v.calls ≡ w.calls ++ handed b (take (limit - used t w) leads))

-- The calls of a lead and of those after it.
more_calls :
    (b : Batch) (now n m : ℕ) (l : String) (ls : List (ℕ × String)) (u v w : List SfCall)
    → n ≡ suc m
    → v ≡ w ++ create_call b.sobject (lead_fields b l) ∷ []
    → u ≡ v ++ handed b (take m ls)
    → u ≡ w ++ handed b (take n ((now, l) ∷ ls))
more_calls b now n m l ls u v w more first later =
    let call = create_call b.sobject (lead_fields b l) in
    rw more (
      later
      ∙ ap (λ (x : List SfCall). x ++ handed b (take m ls)) first
      ∙ append_assoc w (call ∷ []) (handed b (take m ls)))

module _ (b : Batch) (t now : ℕ) (l : String) (ls : List (ℕ × String)) (w v : World)
    (one : used t v ≡ used t w + 1) (room : used t w < limit)
    (call : v.calls ≡ w.calls ++ create_call b.sobject (lead_fields b l) ∷ []) where
  left : limit - used t w ≡ suc (limit - used t v)
  left = omega (arith, one, room)

  add_failed-Promise :
      (e : Error) (x : Result Report × World)
      → Promise b ls t v x
      → Promise b ((now, l) ∷ ls) t w (add_failed l e x.0, x.1)
  add_failed-Promise e (err y, u) h = h
  add_failed-Promise e (ok r, u) h = (
    omega (arith, h.0, one),
    ground (arith, h.1, one),
    omega (arith, h.2, one),
    more_calls b now (limit - used t w) (limit - used t v) l ls u.calls v.calls w.calls left call
        h.3,
  )

  add_enrolled-Promise :
      (j : Json) (x : Result Report × World)
      → Promise b ls t v x
      → Promise b ((now, l) ∷ ls) t w (add_enrolled l j x.0, x.1)
  add_enrolled-Promise j (err y, u) h = h
  add_enrolled-Promise j (ok r, u) h = (
    omega (arith, h.0, one),
    ground (arith, h.1, one),
    omega (arith, h.2, one),
    more_calls b now (limit - used t w) (limit - used t v) l ls u.calls v.calls w.calls left call
        h.3,
  )

used-rates : (t : ℕ) (w v : World) → v.rates ≡ w.rates → used t v ≡ used t w
used-rates t w v h = ap (λ (rs : List Rate). count_of (find_rate rate_bucket t rs)) h

module _ (b : Batch) (t : ℕ)
    (keeps : (s : String) (d : Fields) (w : World)
      → ((b.create s d w).1.rates ≡ w.rates)
        × ((b.create s d w).1.calls ≡ w.calls ++ create_call s d ∷ [])) where
  -- A lead that was counted, whatever `create` does with it.
  after_create-Promise :
      (now : ℕ) (l : String) (ls : List (ℕ × String)) (w : World) (c : Result Fields × World)
      → used t c.1 ≡ used t w + 1
      → used t w < limit
      → (c.1.calls ≡ w.calls ++ create_call b.sobject (lead_fields b l) ∷ [])
      → ((v : World) → v.rates ≡ c.1.rates → Promise b ls t v (enroll_leads b ls v))
      → Promise b ((now, l) ∷ ls) t w (after_create b now l (enroll_leads b ls) c)
  unfolding record_enrollment
  after_create-Promise now l ls w (err e, v) one room call ih =
      let v' = (record_enrollment b now l null failed v).1 in
      add_failed-Promise b t now l ls w v' one room call e (enroll_leads b ls v') (ih v' refl)
  after_create-Promise now l ls w (ok d, v) one room call ih =
      let v' = (record_enrollment b now l (sf_id_of d) enrolled v).1 in
      add_enrolled-Promise b t now l ls w v' one room call (sf_id_of d) (enroll_leads b ls v')
        (ih v' refl)

  pub enroll_leads_lem :
      (leads : List (ℕ × String)) (w : World)
      → IsKeyed w.rates
      → used t w ≤ limit
      → All (λ l. window_of l.0 86400 ≡ t) leads
      → Promise b leads t w (enroll_leads b leads w)
  enroll_leads_lem [] w keyed fits days =
      unfold enroll_leads in
      (ground arith, ground arith, omega arith, none_handed b (limit - used t w) w.calls)
  enroll_leads_lem ((now, l) ∷ ls) w keyed fits (day, days) =
      let step = check_lead now t w keyed day in
      elim (Bool-cases (leb limit (used t w))) [
        | inl full ↦
            let filled = leb→le limit (used t w) full in
            let none_left : limit - used t w ≡ 0 = omega (arith, filled) in
            rw (lead_checked b now l ls w (err rate_limit_exceeded, w) (step ∙ (rw full))) (
              unfold record_enrollment in
              (
                ground (arith, filled),
                ground arith,
                ground arith,
                rw none_left (sym (append-nil w.calls)),
              ))
        | inr room ↦
            let w' = counted t w in
            let (keyed', counts) = admitted_call limit rate_bucket t w keyed in
            let more : used t w' ≡ used t w + 1 =
              counts rate_bucket t ∙ ground (arith, eq_iff rate_bucket rate_bucket) in
            let low : used t w < limit = ground arith in
            let c = b.create b.sobject (lead_fields b l) w' in
            let (same, made) = keeps b.sobject (lead_fields b l) w' in
            let call = create_call b.sobject (lead_fields b l) in
            let made : c.1.calls ≡ w.calls ++ call ∷ [] =
              made ∙ ap (λ (x : List SfCall). x ++ call ∷ []) (counted-calls t w) in
            rw (lead_checked b now l ls w (ok (used t w + 1), w') (step ∙ (rw room))) (
              after_create-Promise now l ls w c (used-rates t w' c.1 same ∙ more) low made λ v e.
                let eq : v.rates ≡ w'.rates = e ∙ same in
                enroll_leads_lem ls v (subst IsKeyed (sym eq) keyed')
                  (omega (arith, used-rates t w' v eq, more)) days)
      ]
