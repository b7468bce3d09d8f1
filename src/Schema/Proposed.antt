-- ===== src/Schema/Proposed.antt =====
-- What propose_change leaves behind.
use loop_revops_agents.Base.{
  ℕ, ◌≡◌, refl, sym, ap, subst, ◌∙◌, ◌⊎◌, String, Bool, true, false, none, some, List, [], ◌∷◌,
  ◌++◌, ◌&&◌, not, str_eq, eq_iff, Bool-cases, Option-cases, inl, inr, lookup,
}
use loop_revops_agents.Base.Texts.{strip}
use loop_revops_agents.Base.Table.{next_id}
use loop_revops_agents.World.{
  World, Error, Result, ok, err, pure, raise_if, approval_required, no_justification,
  proposal_error,
}
use loop_revops_agents.World.Values.{
  Json, Fields, get, truthy, null, flag, number, text, array, object, end,
}
use loop_revops_agents.World.Rows.{Gate}
use loop_revops_agents.World.Bundles.{Bundle, find_bundle}
use loop_revops_agents.World.Keeps.{Reads, Keeps-bind, raise_if-Keeps, if-Keeps, kept, run_cases}
use loop_revops_agents.Governance.Tiers.{tier_of, demands_justification}
use loop_revops_agents.Governance.Gates.{
  is_blank, Request, new_gate, insert_gate, create_approval_gate,
}
use loop_revops_agents.Governance.Limits.{check_rate_limit}
use loop_revops_agents.Governance.Limits.Kept.{limit-Keeps}
use loop_revops_agents.Governance.Lawful.{gate_at}
use loop_revops_agents.Governance.Decide.{gate-insert_self}
use loop_revops_agents.Schema.{Moment, dict_of, save_manifest}
use loop_revops_agents.Schema.Proposer.{
  Change, ProposedChange, valid_action, valid_name, field_of, action_to_tier, is_object_name,
  is_field_name, validate_intent, slugify, bundle_files, write_bundle, manifest_of, change_request,
  propose_change, write_proposal, load_proposal, paths,
}
use loop_revops_agents.Schema.Stored.{dict_of-Reads, find_bundle-append_new, load-save}

valid_action-Reads : (v : Json) → Reads (valid_action v)
valid_action-Reads (text a) w = elim (Option-cases (lookup a action_to_tier)) [
  | inl out ↦ rw (valid_action, out) refl
  | inr (t, found) ↦ rw (valid_action, found) refl
]
valid_action-Reads null w = refl
valid_action-Reads (flag _) w = refl
valid_action-Reads (number _) w = refl
valid_action-Reads (array _) w = refl
valid_action-Reads (object _) w = refl

valid_name-Reads : (matches : String → Bool) (v : Json) → Reads (valid_name matches v)
valid_name-Reads matches (text s) w = elim (Bool-cases (not (str_eq s "") && matches s)) [
  | inl good ↦ rw good refl
  | inr bad ↦ rw bad refl
]
valid_name-Reads matches null w = refl
valid_name-Reads matches (flag _) w = refl
valid_name-Reads matches (number _) w = refl
valid_name-Reads matches (array _) w = refl
valid_name-Reads matches (object _) w = refl

field_of-Reads : (v : Json) → Reads (field_of v)
field_of-Reads v = if-Keeps (λ w. w) (truthy v) (dict_of v) (pure end) (dict_of-Reads v) (λ w. refl)

pub validate-Reads : (intent : Fields) → Reads (validate_intent intent)
unfolding validate_intent
validate-Reads intent =
    Keeps-bind (λ w. w) (valid_action (get "action" intent)) _
      (valid_action-Reads (get "action" intent))
      λ a.
        Keeps-bind (λ w. w) (valid_name is_object_name (get "object" intent)) _
          (valid_name-Reads is_object_name (get "object" intent))
          λ sobject.
            Keeps-bind (λ w. w) (field_of (get "field" intent)) _
              (field_of-Reads (get "field" intent))
              λ fld.
                Keeps-bind (λ w. w) (valid_name is_field_name (get "name" fld)) _
                  (valid_name-Reads is_field_name (get "name" fld))
                  λ name.
                    let writes = not (str_eq a.0 "delete") in
                    let untyped = writes && not (truthy (get "type" fld)) in
                    let unlabelled = writes && not (truthy (get "label" fld)) in
                    Keeps-bind (λ w. w) {B = Change} (raise_if untyped proposal_error) _
                      (raise_if-Keeps (λ w. w) untyped proposal_error)
                      λ _.
                        Keeps-bind (λ w. w) {B = Change} (raise_if unlabelled proposal_error) _
                          (raise_if-Keeps (λ w. w) unlabelled proposal_error) λ _ w. refl

-- The tables that a refused proposal leaves as they were.
abbrev pub Untouched : World → World → Type 0
Untouched w v = (v.gates ≡ w.gates) × (v.bundles ≡ w.bundles) × (v.calls ≡ w.calls)

-- What a proposal leaves behind: its manifest, its files and one pending gate for its tier.
abbrev pub Filed : Moment → String → String → World → ProposedChange → World → Type 0
Filed moment justification requested_by w p v =
    let c = p.change in
    let files = bundle_files c in
    let request = change_request moment p.slug c justification requested_by in
    (find_bundle p.slug w.bundles ≡ none)
    × (load_proposal p.slug v
        ≡ (ok (manifest_of moment p.slug c p.approval_gate_id justification requested_by files), v))
    × (gate_at p.approval_gate_id v ≡ some (new_gate moment.now request p.approval_gate_id))
    × (p.files ≡ paths files ++ "change.yaml" ∷ [])
    × (v.calls ≡ w.calls)

not_blank : (s : String) → str_eq (strip s) "" ≡ false → str_eq s "" ≡ false
not_blank s h = elim (Bool-cases (str_eq s "")) [
  | inl blank ↦
      let e : str_eq (strip s) "" ≡ true =
        subst (λ t. str_eq (strip t) "" ≡ true) (sym ((eq_iff s "").0 blank))
          (unfold strip in refl) in
      absurd (cc)
  | inr given ↦ given
]

and_false : (b : Bool) → (b && false) ≡ false
and_false true = refl
and_false false = refl

-- The bundle as it is first written.
abbrev new_bundle : String → Change → Bundle
new_bundle slug c = record {
  slug = slug;
  manifest = end;
  force_app = bundle_files c;
  revert = none;
}

write_taken :
    (slug : String) (c : Change) (w : World) (b : Bundle)
    → find_bundle slug w.bundles ≡ some b
    → write_bundle slug c w ≡ (err proposal_error, w)
unfolding write_bundle
write_taken slug c w b there = rw (write_bundle, there)

write_fresh :
    (slug : String) (c : Change) (w : World)
    → find_bundle slug w.bundles ≡ none
    → write_bundle slug c w
      ≡ (ok (bundle_files c), record w { bundles = w.bundles ++ new_bundle slug c ∷ [] })
unfolding write_bundle
write_fresh slug c w fresh = rw (write_bundle, fresh)

-- A request with a justification is not refused.
pub create_opens :
    (now : ℕ) (r : Request) (w : World)
    → is_blank r.justification ≡ false
    → create_approval_gate now r w ≡ insert_gate now r w
unfolding create_approval_gate
create_opens now r w given =
    let fine : (demands_justification (tier_of r.action_type) && is_blank r.justification) ≡ false =
      ap (λ t. demands_justification (tier_of r.action_type) && t) given
      ∙ and_false (demands_justification (tier_of r.action_type)) in
    rw (create_approval_gate, fine)

write_cases :
    (moment : Moment) (slug : String) (c : Change) (justification requested_by : String) (w : World)
    → str_eq justification "" ≡ false
    → (write_proposal moment slug c justification requested_by w ≡ (err proposal_error, w))
      ⊎ ((p : ProposedChange) × (v : World) × (write_proposal moment slug c justification
              requested_by w
            ≡ (ok p, v))
          × (p.change ≡ c)
          × Filed moment justification requested_by w p v)
unfolding write_proposal save_manifest
write_cases moment slug c justification requested_by w given =
    elim (Option-cases (find_bundle slug w.bundles)) [
      | inr (b, there) ↦ inl (rw (write_taken slug c w b there))
      | inl fresh ↦
          let new : Bundle = new_bundle slug c in
          let w1 : World = record w { bundles = w.bundles ++ new ∷ [] } in
          let request = change_request moment slug c justification requested_by in
          let k = next_id (λ (g : Gate). g.id) w.gates in
          let w2 : World = (insert_gate moment.now request w1).1 in
          let m = manifest_of moment slug c k justification requested_by (bundle_files c) in
          let v : World = (save_manifest slug m w2).1 in
          let p : ProposedChange = record {
            slug = slug;
            change = c;
            approval_gate_id = k;
            files = paths (bundle_files c) ++ "change.yaml" ∷ [];
          } in
          inr (
            p,
            v,
            rw (write_fresh slug c w fresh, create_opens moment.now request w1 given),
            refl,
            (
              fresh,
              load-save slug m w2 new (find_bundle-append_new w.bundles new fresh),
              gate-insert_self moment.now request w1,
              refl,
              refl,
            ),
          )
    ]

limit-Untouched :
    (now : ℕ) (w v : World) {r : Result ℕ}
    → check_rate_limit now "revops_schema_changes_weekly" 604800 none w ≡ (r, v)
    → Untouched w v
limit-Untouched now w v h =
    let limit = check_rate_limit now "revops_schema_changes_weekly" 604800 none in
    (
      kept (λ x. x.gates) limit (limit-Keeps (λ x. x.gates) (λ _ _. refl) now _ _ none) w v h,
      kept (λ x. x.bundles) limit (limit-Keeps (λ x. x.bundles) (λ _ _. refl) now _ _ none) w v h,
      kept (λ x. x.calls) limit (limit-Keeps (λ x. x.calls) (λ _ _. refl) now _ _ none) w v h,
    )

Filed-from :
    (moment : Moment) (justification requested_by : String) (w u : World) (p : ProposedChange)
    (v : World)
    → Untouched w u
    → Filed moment justification requested_by u p v
    → Filed moment justification requested_by w p v
Filed-from moment justification requested_by w u p v (_, bundles, calls)
      (fresh, loaded, gate, files, org) =
    (
      ap (λ (bs : List Bundle). find_bundle p.slug bs) (sym bundles) ∙ fresh,
      loaded,
      gate,
      files,
      org ∙ calls,
    )

pub propose_change_lem :
    (moment : Moment) (intent : Fields) (justification requested_by : String) (w : World)
    → ((e : Error) × (v : World) × (propose_change moment intent justification requested_by w
          ≡ (err e, v))
        × Untouched w v)
      ⊎ ((p : ProposedChange) × (v : World) × (propose_change moment intent justification
              requested_by w
            ≡ (ok p, v))
          × (validate_intent intent w ≡ (ok p.change, w))
          × Filed moment justification requested_by w p v)
unfolding propose_change
propose_change_lem moment intent justification requested_by w =
    elim (run_cases (validate_intent intent) w) [
      | inl (e, v, invalid) ↦
          let same = kept (λ x. x) (validate_intent intent) (validate-Reads intent) w v invalid in
          inl (e, v, (rw invalid), rw same (refl, refl, refl))
      | inr (c, v, valid) ↦
          let same = kept (λ x. x) (validate_intent intent) (validate-Reads intent) w v valid in
          let valid : validate_intent intent w ≡ (ok c, w) =
            subst (λ u. validate_intent intent w ≡ (ok c, u)) same valid in
          let counted = check_rate_limit moment.now "revops_schema_changes_weekly" 604800 none in
          elim (Bool-cases (str_eq (strip justification) "")) [
            | inl blank ↦
                inl (approval_required no_justification, w, rw (valid, blank), (refl, refl, refl))
            | inr given ↦ elim (Option-cases (tier_of c.action_type)) [
              | inl untiered ↦
                  inl (proposal_error, w, rw (valid, given, untiered), (refl, refl, refl))
              | inr (t, tiered) ↦ elim (run_cases counted w) [
                | inl (e, v1, full) ↦
                    inl
                      (e, v1, rw (valid, given, tiered, full), limit-Untouched moment.now w v1 full)
                | inr (n, v1, room) ↦
                    let apart = limit-Untouched moment.now w v1 room in
                    elim (write_cases moment (slugify moment c) c justification requested_by v1
                      (not_blank justification given)) [
                        | inl taken ↦
                            inl (proposal_error, v1, rw (valid, given, tiered, room, taken), apart)
                        | inr (p, v2, written, same_change, filed) ↦ inr (
                          p,
                          v2,
                          rw (valid, given, tiered, room, written),
                          rw same_change valid,
                          Filed-from moment justification requested_by w v1 p v2 apart filed,
                        )
                      ]
              ]
            ]
          ]
    ]
