-- ===== src/Bulk/Reads.antt =====
-- The parts of a run that write nothing: validation, snapshot and authentication.
use loop_revops_agents.Base.{
  refl, String, Option, none, some, List, [], ◌∷◌, str_eq, ◌||◌, Bool-cases, Option-cases, inl, inr,
}
use loop_revops_agents.Base.Slices.{slices}
use loop_revops_agents.World.{Env, or_raise, salesforce_error}
use loop_revops_agents.World.Keeps.{Reads, Keeps-bind, or_raise-Keeps}
use loop_revops_agents.World.Values.{Json, Fields, end, get}
use loop_revops_agents.Bulk.{
  Ports, check_auth, auth_of, text_of, write_alias, result_of, keep_rows, fetch_chunks,
  soql_in_chunk, validate_updates, get_write_auth, fetch_before_snapshot,
}

fetch_chunks-Reads :
    (p : Ports) (sobject : String) (fields : List String) (chunks : List (List String)) (d : Fields)
    → Reads (fetch_chunks p sobject fields chunks d)
fetch_chunks-Reads p sobject fields [] d w = refl
fetch_chunks-Reads p sobject fields (ids ∷ rest) d w =
    Keeps-bind (λ v. v) (or_raise (p.soql sobject fields ids) salesforce_error)
      (λ records. fetch_chunks p sobject fields rest (keep_rows fields records d))
      (or_raise-Keeps (λ v. v) (p.soql sobject fields ids) salesforce_error)
      (λ records. fetch_chunks-Reads p sobject fields rest (keep_rows fields records d)) w

pub fetch-Reads :
    (p : Ports) (sobject : String) (ids fields : List String)
    → Reads (fetch_before_snapshot p sobject ids fields)
unfolding fetch_before_snapshot
fetch-Reads p sobject ids [] w = refl
fetch-Reads p sobject ids (f ∷ fs) w =
    fetch_chunks-Reads p sobject (f ∷ fs) (slices soql_in_chunk ids) end w

check_auth-Reads : (result : Fields) → Reads (check_auth result)
check_auth-Reads result w =
    elim (Bool-cases (
      str_eq (text_of (get "accessToken" result)) ""
      || str_eq (text_of (get "instanceUrl" result)) "")) [
        | inl bad ↦ rw bad refl
        | inr good ↦ rw good refl
      ]

auth_of-Reads : (o : Option Json) → Reads (auth_of o)
auth_of-Reads none w = refl
auth_of-Reads (some printed) w = elim (Option-cases (result_of printed)) [
  | inl bad ↦ rw bad refl
  | inr (result, good) ↦ rw good (check_auth-Reads result w)
]

pub auth-Reads : (env : Env) (p : Ports) → Reads (get_write_auth env p)
unfolding get_write_auth
auth-Reads env p w = elim (Bool-cases (str_eq (write_alias env.config) "")) [
  | inl bad ↦ rw bad refl
  | inr good ↦ rw good (auth_of-Reads (p.display (write_alias env.config)) w)
]

pub validate-Reads : (updates : List Fields) → Reads (validate_updates updates)
unfolding validate_updates
validate-Reads [] w = refl
validate-Reads (u ∷ us) w = refl
