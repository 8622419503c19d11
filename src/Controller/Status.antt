-- ===== src/Controller/Status.antt =====
-- internal/controller/reconciler.go: the conditions and the status of a custom resource. How
-- `meta.SetStatusCondition` enters a condition in a list is a parameter.
use nebularr_operator.Common.{
  ℕ, String, Bool, ◌≡◌, ◌≢◌, ◌==◌, string_eq, if◌then◌else◌, ℤ, Option, none, some, List, [], ◌∷◌,
}

pub record Condition : Type 0 where
  pub type : String
  pub status : String
  pub observed_generation : ℤ
  pub last_transition_time : ℕ
  pub reason : String
  pub message : String

abbrev pub condition_type_ready : String
condition_type_ready = "Ready"

abbrev pub condition_type_connected : String
condition_type_connected = "Connected"

abbrev pub condition_type_synced : String
condition_type_synced = "Synced"

abbrev pub condition_true : String
condition_true = "True"

abbrev pub condition_false : String
condition_false = "False"

-- What the status wrappers of the five kinds read and write.
pub record ConfigStatus : Type 0 where
  pub conditions : List Condition
  pub connected : Bool
  pub service_version : String
  pub last_reconcile : Option ℕ
  pub last_applied_hash : String

-- The first condition of a type, and its status.
unfoldable pub find_condition : String → List Condition → Option Condition
find_condition type [] = none
find_condition type (c ∷ conditions) =
    let rest = find_condition type conditions in if c.type == type then some c else rest

abbrev pub condition_status : String → ConfigStatus → Option String
condition_status type status = elim (find_condition type status.conditions) [
  | none ↦ none
  | some c ↦ some c.status
]

-- What is documented of `meta.SetStatusCondition`: the list then has the status of the new condition
-- for its type, and the others as before.
pub record IsSetter (set_status_condition : Condition → List Condition → List Condition)
    : Type 0 where
  pub sets :
      (c : Condition) (conditions : List Condition)
      → (d : Condition) × (find_condition c.type (set_status_condition c conditions) ≡ some d)
        × (d.status ≡ c.status)
        × (d.reason ≡ c.reason)
        × (d.message ≡ c.message)
  pub keeps :
      (c : Condition) (conditions : List Condition) (type : String)
      → type ≢ c.type
      → find_condition type (set_status_condition c conditions) ≡ find_condition type conditions

module _ (set_status_condition : Condition → List Condition → List Condition) (now : ℕ) where
  unfoldable pub set_condition : ConfigStatus → ℤ → String → String → String → String → ConfigStatus
  set_condition status generation cond_type cond_status reason message = record status {
    conditions =
        set_status_condition
          (record {
            type = cond_type;
            status = cond_status;
            observed_generation = generation;
            last_transition_time = now;
            reason = reason;
            message = message;
          })
          status.conditions;
  }
