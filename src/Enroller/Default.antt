-- ===== src/Enroller/Default.antt =====
-- Enrolment with the default `create_fn`, which goes through `create_record`.
use loop_revops_agents.Base.{
  ℕ, ◌≡◌, refl, sym, ap, subst, ◌∙◌, String, none, some, List, [], ◌∷◌, arith, str_ne, inl, inr,
}
use loop_revops_agents.Base.Table.{find_id}
use loop_revops_agents.World.{
  World, Error, Refusal, Env, Result, ok, err, approval_required, rate_limit_exceeded, bind_step,
}
use loop_revops_agents.World.Values.{Fields, null}
use loop_revops_agents.World.Rows.{Gate, failed}
use loop_revops_agents.Governance.Gates.{require_approved_gate}
use loop_revops_agents.Governance.Limits.{check_rate_limit, count_call}
use loop_revops_agents.Governance.Lawful.{gate_at}
use loop_revops_agents.Governance.Votes.{require_iff}
use loop_revops_agents.Salesforce.Gated.{require_cases, create_record_gated}
use loop_revops_agents.Enroller.{
  cadence_sobject, Batch, Report, enroll_leads, enroll_batch, default_create, record_enrollment,
  rate_bucket, gate_action, after_check, add_failed, lead_fields,
}
use loop_revops_agents.Enroller.Leads.{lead_checked}

create_refused :
    (env : Env) (sobject : String) (fields : Fields) (k : ℕ) (w : World) (g : Gate)
    → gate_at k w ≡ some g
    → g.action_type ≡ gate_action
    → (why : Refusal) × (default_create env k sobject fields w ≡ (err (approval_required why), w))
create_refused env sobject fields k w g found action =
    elim (create_record_gated env sobject fields "top_of_funnel" (some k) w) [
      | inl refused ↦ refused
      | inr ((h, there, _, single), _) ↦
          let same : g ≡ h = cc in
          absurd (
            str_ne gate_action "single_record_update" refl
              (sym action ∙ ap (λ (x : Gate). x.action_type) same ∙ single))
    ]

gates-check :
    (now : ℕ) (w : World)
    → ((check_rate_limit now rate_bucket 86400 none w).1.gates ≡ w.gates)
      × ((check_rate_limit now rate_bucket 86400 none w).1.calls ≡ w.calls)
unfolding check_rate_limit count_call
gates-check now w = (ground arith, ground arith)

-- No lead is reported as enrolled, and no call was made.
abbrev Idle : World → Result Report × World → Type 0
Idle w (err e, v) = v.calls ≡ w.calls
Idle w (ok r, v) = (r.enrolled_leads ≡ []) × (v.calls ≡ w.calls)

add_failed-Idle :
    (l : String) (e : Error) (w v : World) (x : Result Report × World)
    → v.calls ≡ w.calls
    → Idle v x
    → Idle w (add_failed l e x.0, x.1)
add_failed-Idle l e w v (err y, u) same h = h ∙ same
add_failed-Idle l e w v (ok r, u) same h = (h.0, h.1 ∙ same)

module _ (b : Batch) (g : Gate)
    (refuses : (d : Fields) (v : World)
      → gate_at b.gate_id v ≡ some g
      → (e : Error) × (b.create b.sobject d v ≡ (err e, v))) where
  -- One lead, once the check of the limit has come out in some way.
  after_check-Idle :
      (now : ℕ) (l : String) (ls : List (ℕ × String)) (w : World) (c : Result ℕ × World)
      → gate_at b.gate_id c.1 ≡ some g
      → c.1.calls ≡ w.calls
      → ((v : World) → gate_at b.gate_id v ≡ some g → Idle v (enroll_leads b ls v))
      → Idle w (after_check b now l (enroll_leads b ls) c)
  unfolding record_enrollment
  after_check-Idle now l ls w (err rate_limit_exceeded, v) found same ih = (refl, same)
  after_check-Idle now l ls w (ok n, v) found same ih =
      let (e, refused) = refuses (lead_fields b l) v found in
      let v' = (record_enrollment b now l null failed v).1 in
      rw refused (add_failed-Idle l e w v' (enroll_leads b ls v') same (ih v' found))
  after_check-Idle now l ls w (err e, v) found same ih = same

  enroll_leads-Idle :
      (leads : List (ℕ × String)) (w : World)
      → gate_at b.gate_id w ≡ some g
      → Idle w (enroll_leads b leads w)
  enroll_leads-Idle [] w found = unfold enroll_leads in (refl, refl)
  enroll_leads-Idle ((now, l) ∷ ls) w found =
      let c = check_rate_limit now rate_bucket 86400 none w in
      let (gates, calls) = gates-check now w in
      rw (lead_checked b now l ls w c refl) (
        after_check-Idle now l ls w c
          (ap (λ (gs : List Gate). find_id (λ x. x.id) b.gate_id gs) gates ∙ found) calls
          (enroll_leads-Idle ls))

-- With the default `create_fn` an approved batch enrols nobody and makes no call of Salesforce:
-- `create_record` asks for a gate of another action type, and every lead fails.
pub nobody_enrolled :
    (env : Env) (leads : List (ℕ × String)) (sequence_id : String) (k : ℕ) (w v : World)
    (r : Report)
    → enroll_batch env leads sequence_id k none w ≡ (ok r, v)
    → (r.enrolled_leads ≡ []) × (v.calls ≡ w.calls)
unfolding enroll_batch
nobody_enrolled env leads sequence_id k w v r h =
    let b : Batch = record {
      sequence_id = sequence_id;
      sobject = cadence_sobject env.config;
      gate_id = k;
      create = default_create env k;
    } in
    elim (require_cases (some k) gate_action w) [
      | inl (why, e) ↦
          let stop : enroll_batch env leads sequence_id k none w
              ≡ (err (approval_required why), w) =
            rw e in
          absurd (cc)
      | inr (_, (g, e)) ↦
          let (found, _, action) = (require_iff k gate_action w g).0 e in
          let run : enroll_batch env leads sequence_id k none w ≡ enroll_leads b leads w =
            bind_step (require_approved_gate (some k) gate_action) (λ _. enroll_leads b leads) w
              e in
          subst (Idle w) (sym run ∙ h) (
            enroll_leads-Idle b g
              (λ d u there.
                let (why, refused) = create_refused env b.sobject d k u g there action in
                (approval_required why, refused))
              leads w found)
    ]
