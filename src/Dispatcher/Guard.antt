-- ===== src/Dispatcher/Guard.antt =====
-- Where messages go under the dev guard.
use loop_revops_agents.Base.{
  ℕ, ◌≡◌, ◌≢◌, ◌⊎◌, ap, String, true, Option, [], ◌∷◌, ◌++◌, arith, eq_iff, Bool-cases, inl, inr,
}
use loop_revops_agents.World.{World, Env}
use loop_revops_agents.World.Values.{Json, null, flag, number, text, array, object, json_eq}
use loop_revops_agents.Dispatcher.{channel_for, send, config_with}

json_eq-text : (j : Json) (s : String) → json_eq j (text s) ≡ true → j ≡ text s
unfolding json_eq
json_eq-text null s h = absurd (cc)
json_eq-text (flag b) s h = absurd (cc)
json_eq-text (number n) s h = absurd (cc)
json_eq-text (text t) s h = ap text ((eq_iff t s).0 h)
json_eq-text (array xs) s h = absurd (cc)
json_eq-text (object d) s h = absurd (cc)

-- The channel that a message reaches: with the guard on and a test channel named, the test channel,
-- whatever was asked for; with the guard off, or with no test channel named, the channel asked for.
pub channel_for_lem :
    (config : String → Option String) (channel : Json)
    → let on = config_with config "SLACK_DEV_GUARD" "1" in
      let test = config_with config "SLACK_TEST_CHANNEL" "" in
      (on ≡ "1" → test ≢ "" → channel_for config channel ≡ text test)
      × (on ≢ "1" → channel_for config channel ≡ channel)
      × (test ≡ "" → channel_for config channel ≡ channel)
unfolding channel_for
channel_for_lem config channel =
    let on = config_with config "SLACK_DEV_GUARD" "1" in
    let test = config_with config "SLACK_TEST_CHANNEL" "" in
    (
      λ guarded named. elim (Bool-cases (json_eq channel (text test))) [
        | inl same ↦ ground (arith, eq_iff on "1", eq_iff test "", json_eq-text channel test same)
        | inr other ↦ ground (arith, eq_iff on "1", eq_iff test "")
      ],
      λ off. ground (arith, eq_iff on "1"),
      λ unnamed. ground (arith, eq_iff on "1", eq_iff test ""),
    )

pub guarded_send :
    (env : Env) (channel : Json) (gate_id : Option ℕ) (w : World)
    → config_with env.config "SLACK_DEV_GUARD" "1" ≡ "1"
    → config_with env.config "SLACK_TEST_CHANNEL" "" ≢ ""
    → ((send env channel gate_id w).1.sent ≡ w.sent)
      ⊎ ((send env channel gate_id w).1.sent
          ≡ w.sent
            ++ record {
              channel = text (config_with env.config "SLACK_TEST_CHANNEL" "");
              gate_id = gate_id;
            }
              ∷ [])
unfolding send
guarded_send env channel gate_id w on named =
    let test = config_with env.config "SLACK_TEST_CHANNEL" "" in
    rw ((channel_for_lem env.config channel).0 on named)
      (elim (Bool-cases (env.slack w.sent (record { channel = text test; gate_id = gate_id }))) [
        | inl taken ↦ inr (rw taken)
        | inr refused ↦ inl (rw refused)
      ])
