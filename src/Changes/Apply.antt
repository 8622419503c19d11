-- ===== src/Changes/Apply.antt =====
-- internal/adapters/shared/apply.go. A callback that calls the service passes the state of the
-- outside world on, and returns an error or none.
use nebularr_operator.Common.{String, Option, none, some, List, [], ◌∷◌, ◌+◌, ◌++◌}
use nebularr_operator.Changes.Types.{Change, ChangeSet, ApplyResult, no_result}

abbrev pub ApplyFunc : Type 0 → Type 0
ApplyFunc S = Change → S → Option String × S

-- `result.Applied++`, or `result.Failed++` with the error appended.
abbrev pub count_outcome : Change → Option String → ApplyResult → ApplyResult
count_outcome change none result = record result { applied = result.applied + 1 }
count_outcome change (some e) result = record result {
  failed = result.failed + 1;
  errors = result.errors ++ record { change = change; error = e } ∷ [];
}

module _ {S : Type 0} where
  -- One of the three loops.
  unfoldable pub apply_each : ApplyFunc S → List Change → ApplyResult → S → ApplyResult × S
  apply_each apply [] result s = (result, s)
  apply_each apply (change ∷ changes) result s =
      let (e, s') = apply change s in apply_each apply changes (count_outcome change e result) s'

  unfoldable pub apply_changes :
      ChangeSet → ApplyFunc S → ApplyFunc S → ApplyFunc S → S → ApplyResult × S
  apply_changes changes create_fn update_fn delete_fn s =
      let (created, s₁) = apply_each create_fn changes.creates no_result s in
      let (updated, s₂) = apply_each update_fn changes.updates created s₁ in
      apply_each delete_fn changes.deletes updated s₂
