-- ===== src/World.antt =====
-- The state that the agents share: the tables of shared/db/schema.sql that governance and its
-- clients read and write, the calls made of the `sf` command line, and the Slack messages posted.
-- A Python function is an action: it returns a value or raises, and what it wrote stays written.
pub mod Values
pub mod Rows
pub mod Bundles
pub mod Runs
pub mod Keeps
use loop_revops_agents.Base.{
  ℕ, ◌≡◌, refl, ap, String, Option, none, some, List, Bool, if◌then◌else◌,
}
use loop_revops_agents.World.Values.{Fields, Json}
use loop_revops_agents.World.Bundles.{Bundle}
use loop_revops_agents.World.Runs.{Run, Task}
use loop_revops_agents.World.Rows.{Gate, Audit, Rate, Enrollment}

-- A call of the `sf` command line or of the Salesforce REST interface that changes the org or reads its
-- metadata.
pub data SfCall : Type 0 where
  create_call : String → Fields → SfCall
  update_call : String → Json → Fields → SfCall
  merge_call : String → String → List String → SfCall
  patch_call : String → List Fields → SfCall
  delete_call : String → Json → SfCall
  -- The org and the arguments of `sf project deploy start` and `sf project retrieve start`.
  deploy_call retrieve_call : String → List String → SfCall

pub record Message : Type 0 where
  pub channel : Json
  -- The gate whose buttons the message carries.
  pub gate_id : Option ℕ

pub record World : Type 0 where
  pub gates : List Gate
  pub audit : List Audit
  pub rates : List Rate
  pub calls : List SfCall
  pub sent : List Message
  pub enrollments : List Enrollment
  pub bundles : List Bundle
  pub runs : List Run
  pub tasks : List Task

-- What the message of an `ApprovalRequired` says.
pub data Refusal : Type 0 where
  no_justification no_gate_id unknown_gate wrong_status wrong_action not_auto_approve : Refusal
  cooling_down not_a_primary no_parent account_mismatch : Refusal

pub data Error : Type 0 where
  approval_required : Refusal → Error
  rate_limit_exceeded unknown_bucket bad_mode bad_value missing_key : Error
  salesforce_error bulk_update_error proposal_error slack_error http_error attribute_error : Error
  type_error file_not_found deploy_precondition_error rollback_error runtime_error : Error

pub data Result (A : Type 0) : Type 0 where
  ok : A → Result A
  err : Error → Result A

abbrev pub M : Type 0 → Type 0
M A = World → Result A × World

module _ {A : Type 0} where
  abbrev pub pure : A → M A
  pure a w = (ok a, w)

  abbrev pub raise : Error → M A
  raise e w = (err e, w)

  abbrev pub or_raise : Option A → Error → M A
  or_raise none e = raise e
  or_raise (some a) e = pure a

abbrev pub continue : {A B : Type 0} → Result A → (A → M B) → M B
continue (ok a) f w = f a w
continue (err e) f w = (err e, w)

infixl 5 ◌>>=◌ ◌>>◌
abbrev pub ◌>>=◌ : {A B : Type 0} → M A → (A → M B) → M B
◌>>=◌ m f w = let (r, w') = m w in continue r f w'

abbrev pub ◌>>◌ : {A B : Type 0} → M A → M B → M B
m >> k = m >>= λ _. k

abbrev pub raise_if : Bool → Error → M (Unit {0})
raise_if c e w = (if c then err e else ok tt, w)

-- What the code does not implement. A call's answer may depend on all calls before it.
pub record Env : Type 0 where
  -- The answer of the Salesforce org; `none` is a `SalesforceError`.
  pub org : List SfCall → SfCall → Option Fields
  -- Whether Slack takes the message, or the client raises.
  pub slack : List Message → Message → Bool
  -- The environment variables.
  pub config : String → Option String

-- A sequence whose first step is known.
pub bind_step :
    {A B : Type 0} (m : M A) (f : A → M B) (w : World) {r : Result A} {w' : World}
    → m w ≡ (r, w')
    → (m >>= f) w ≡ continue r f w'
bind_step {A} m f w h = ap (λ (p : Result A × World). continue p.0 f p.1) h

-- An action that succeeds, taken apart at its first step.
pub >>=-eq-ok :
    {A B : Type 0} (m : M A) (f : A → M B) (w : World) {b : B} {w' : World}
    → (m >>= f) w ≡ (ok b, w')
    → (a : A) × (v : World) × (m w ≡ (ok a, v)) × (f a v ≡ (ok b, w'))
>>=-eq-ok {A} {B} m f w {b} {w'} h = split (m w) refl h
  where
    split :
        (r : Result A × World)
        → m w ≡ r
        → ◌≡◌ {A = Result B × World} (continue r.0 f r.1) (ok b, w')
        → (a : A) × (v : World) × (m w ≡ (ok a, v)) × (f a v ≡ (ok b, w'))
    split (ok a, v) e k = (a, v, e, k)
    split (err x, v) e k = absurd (cc)
