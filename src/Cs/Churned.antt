-- ===== src/Cs/Churned.antt =====
-- Marking an account as churned needs both gates of the flow.
use loop_revops_agents.Base.{
  ℕ, ◌≡◌, ◌⊎◌, refl, ap, ◌∙◌, String, true, some, arith, str_eq, eq_iff, Bool-cases, Option-cases,
  inl, inr,
}
use loop_revops_agents.World.{World, Error, Result, ok, err, bind_step}
use loop_revops_agents.World.Values.{get, find_field, truthy, json_eq}
use loop_revops_agents.World.Rows.{Gate, approved}
use loop_revops_agents.Governance.Gates.{is_approved}
use loop_revops_agents.Governance.Lawful.{gate_at}
use loop_revops_agents.Governance.Votes.{require_iff}
use loop_revops_agents.Salesforce.Gated.{require_cases}
use loop_revops_agents.Cs.{
  Writer, Checked, check_request, check_churned, write_churned, finalize_mark_churned, parent_named,
  to_int,
}

-- What stands behind a write: the confirmation gate is approved, it names a request gate that is
-- approved, and both are about the same account, the one that is written.
pub record Agreed (k : ℕ) (c : Checked) (request : Gate) (w : World) : Type 0 where
  pub confirm_found : gate_at k w ≡ some c.confirm
  pub confirm_approved : c.confirm.status ≡ approved
  pub confirm_action : c.confirm.action_type ≡ "mark_churned_confirm"
  pub names_request : to_int (parent_named c.confirm) ≡ some c.parent_id
  pub request_found : gate_at c.parent_id w ≡ some request
  pub request_approved : request.status ≡ approved
  pub request_action : request.action_type ≡ "mark_churned_request"
  pub same_account :
      json_eq (get "account_id" request.payload) (get "account_id" c.confirm.payload) ≡ true
  pub account_written : find_field "account_id" c.confirm.payload ≡ some c.account_id

abbrev Checks : ℕ → World → Result Checked × World → Type 0
Checks k w (err e, v) = v ≡ w
Checks k w (ok c, v) = (v ≡ w) × ((a : Gate) × Agreed k c a w)

check_request_lem :
    (k n : ℕ) (b a : Gate) (w : World)
    → gate_at k w ≡ some b
    → b.status ≡ approved
    → b.action_type ≡ "mark_churned_confirm"
    → to_int (parent_named b) ≡ some n
    → gate_at n w ≡ some a
    → Checks k w (check_request b n a w)
check_request_lem k n b a w found done action named there =
    elim (Bool-cases (str_eq a.action_type "mark_churned_request")) [
      | inr other ↦ rw other refl
      | inl request ↦ elim (Bool-cases (is_approved a.status)) [
        | inr waits ↦ rw (request, waits) refl
        | inl passed ↦
            elim (Bool-cases (json_eq (get "account_id" a.payload) (get "account_id" b.payload))) [
              | inr differ ↦ rw (request, passed, differ) refl
              | inl same ↦ elim (Option-cases (find_field "account_id" b.payload)) [
                | inl missing ↦ rw (request, passed, same, missing) refl
                | inr (account, given) ↦
                    rw (request, passed, same, given)
                      (
                        refl,
                        (
                          a,
                          record {
                            confirm_found = found;
                            confirm_approved = done;
                            confirm_action = action;
                            names_request = named;
                            request_found = there;
                            request_approved = ground arith;
                            request_action =
                                (eq_iff a.action_type "mark_churned_request").0 request;
                            same_account = same;
                            account_written = given;
                          },
                        ),
                      )
              ]
            ]
      ]
    ]

-- The checks write nothing, and what passes them is agreed.
pub check_churned_lem : (k : ℕ) (w : World) → Checks k w (check_churned k w)
unfolding check_churned
check_churned_lem k w = elim (require_cases (some k) "mark_churned_confirm" w) [
  | inl (why, e) ↦ rw e refl
  | inr (_, (b, e)) ↦
      let (found, done, action) = (require_iff k "mark_churned_confirm" w b).0 e in
      elim (Bool-cases (truthy (parent_named b))) [
        | inr lost ↦ rw (e, lost) refl
        | inl named ↦ elim (Option-cases (to_int (parent_named b))) [
          | inl odd ↦ rw (e, named, odd) refl
          | inr (n, number) ↦ elim (Option-cases (gate_at n w)) [
            | inl absent ↦ rw (e, named, number, absent) refl
            | inr (a, there) ↦
                rw (e, named, number, there)
                  (check_request_lem k n b a w found done action number there)
          ]
        ]
      ]
]

same_world : (k : ℕ) (w : World) (r : Result Checked × World) → Checks k w r → r.1 ≡ w
same_world k w (err e, v) h = h
same_world k w (ok c, v) h = h.0

pub check_churned-unchanged : (k : ℕ) (w : World) → (check_churned k w).1 ≡ w
check_churned-unchanged k w = same_world k w (check_churned k w) (check_churned_lem k w)

pub finalize_mark_churned_lem :
    (write : Writer) (k : ℕ) (approver : String) (w : World)
    → ((e : Error) × (finalize_mark_churned write k approver w ≡ (err e, w)))
      ⊎ ((c : Checked) × (a : Gate) × Agreed k c a w
          × (finalize_mark_churned write k approver w ≡ write_churned write k approver c w))
unfolding finalize_mark_churned
finalize_mark_churned_lem write k approver w = go (check_churned k w) refl (check_churned_lem k w)
  where
    go :
        (r : Result Checked × World)
        → check_churned k w ≡ r
        → Checks k w r
        → ((e : Error) × (finalize_mark_churned write k approver w ≡ (err e, w)))
          ⊎ ((c : Checked) × (a : Gate) × Agreed k c a w
              × (finalize_mark_churned write k approver w ≡ write_churned write k approver c w))
    go (err e, v) run same = inl (
      e,
      bind_step (check_churned k) (write_churned write k approver) w run
          ∙ ap (λ (u : World). (err e, u)) same,
    )
    go (ok c, v) run (same, (a, agreed)) = inr (
      c,
      a,
      agreed,
      bind_step (check_churned k) (write_churned write k approver) w run
          ∙ ap (λ (u : World). write_churned write k approver c u) same,
    )
