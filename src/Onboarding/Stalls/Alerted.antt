-- ===== src/Onboarding/Stalls/Alerted.antt =====
-- The alerts that were made, and the window in which they are not made again.
use loop_revops_agents.Base.{
  ℕ, ◌+◌, ◌≡◌, refl, sym, subst, String, true, false, some, List, [], ◌∷◌, ◌&&◌, ltb, str_eq,
  if◌then◌else◌, Bool-cases, inl, inr, eq_iff,
}
use loop_revops_agents.Onboarding.Stalls.{
  Alert, same_key, last_alert, alert_dedup_window, recently_alerted, record_alert,
}

same_key-fields : (x y i f : String) → same_key x y i f ≡ true → (x ≡ i) × (y ≡ f)
same_key-fields x y i f h = elim (Bool-cases (str_eq x i)) [
  | inl e ↦
      let d : str_eq y f ≡ true = subst (λ b. (b && str_eq y f) ≡ true) e h in
      ((eq_iff x i).0 e, (eq_iff y f).0 d)
  | inr n ↦ let no : false ≡ true = subst (λ b. (b && str_eq y f) ≡ true) n h in absurd (cc)
]

-- A row of the same key has the key of no other alert.
row_is_other :
    (x y i f j g : String)
    → same_key x y i f ≡ false
    → same_key i f j g ≡ true
    → same_key x y j g ≡ false
row_is_other x y i f j g apart same =
    let (e, d) = same_key-fields i f j g same in rw (sym e, sym d) apart

last_alert-record_alert :
    (now : ℕ) (i f j g : String) (rows : List Alert)
    → last_alert j g (record_alert now i f rows)
      ≡ (if same_key i f j g then some now else last_alert j g rows)
unfolding last_alert record_alert
last_alert-record_alert now i f j g [] = refl
last_alert-record_alert now i f j g (a ∷ rows) =
    let ih = last_alert-record_alert now i f j g rows in
    elim (Bool-cases (same_key a.onboarding_id a.fingerprint i f)) [
      | inl found ↦
          let (e, d) = same_key-fields a.onboarding_id a.fingerprint i f found in
          elim (Bool-cases (same_key i f j g)) [
            | inl same ↦ rw (found, e, d, same) refl
            | inr distinct ↦ rw (found, e, d, distinct) refl
          ]
      | inr apart ↦ elim (Bool-cases (same_key i f j g)) [
        | inl same ↦
            let other = row_is_other a.onboarding_id a.fingerprint i f j g apart same in
            rw (apart, other, ih, same) refl
        | inr distinct ↦ elim (Bool-cases (same_key a.onboarding_id a.fingerprint j g)) [
          | inl asked ↦ rw (apart, distinct, asked) refl
          | inr passed ↦
              rw (apart, distinct, passed)
                (subst
                  (λ b.
                    last_alert j g (record_alert now i f rows)
                    ≡ (if b then some now else last_alert j g rows))
                  distinct ih)
        ]
      ]
    ]

-- After an alert the same stage of the same onboarding counts as alerted until 72 hours have passed,
-- and every other stage or onboarding as it did before.
pub record_alert_lem :
    (now later : ℕ) (i f j g : String) (rows : List Alert)
    → recently_alerted later j g (record_alert now i f rows) ≡ (
        if same_key i f j g
        then ltb later (now + alert_dedup_window)
        else recently_alerted later j g rows)
unfolding recently_alerted
record_alert_lem now later i f j g rows = elim (Bool-cases (same_key i f j g)) [
  | inl same ↦ rw (recently_alerted, last_alert-record_alert now i f j g rows, same) refl
  | inr distinct ↦ rw (recently_alerted, last_alert-record_alert now i f j g rows, distinct) refl
]
