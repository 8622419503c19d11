-- ===== src/Shared/Direct.antt =====
-- internal/adapters/shared/applydirect.go. A callback passes the state of the outside world on; one
-- that is nil is none. The counters are numbers of resources.
pub mod Laws
use nebularr_operator.Common.{
  ℕ, ◌+◌, String, ◌<>◌, Option, none, some, List, [], ◌∷◌, ◌++◌, Result, ok, err, if◌then◌else◌,
}
use nebularr_operator.Ir.{Ir}
use nebularr_operator.Changes.{
  Change, ApplyError, ApplyResult, no_result, is_nil, resource_import_list,
  resource_media_management, resource_authentication,
}

pub record ImportListStats : Type 0 where
  pub created : ℕ
  pub updated : ℕ
  pub deleted : ℕ
  pub skipped : ℕ
  pub errors : List String

pub record DirectApplyCallbacks (S : Type 0) : Type 0 where
  pub apply_import_lists : Option (S → Result (Option ImportListStats) × S)
  pub apply_media_management : Option (S → Option String × S)
  pub apply_authentication : Option (S → Option String × S)

abbrev pub resource_change : String → Change
resource_change resource_type = record {
  resource_type = resource_type;
  name = "";
  id = none;
  payload = none;
}

-- `result.Failed++`, with the error of a resource type appended.
abbrev pub add_failure : String → String → ApplyResult → ApplyResult
add_failure resource_type e result = record result {
  failed = result.failed + 1;
  errors = result.errors ++ record { change = resource_change resource_type; error = e } ∷ [];
}

-- The loop over the errors of the import lists.
unfoldable pub add_failures : List String → ApplyResult → ApplyResult
add_failures [] result = result
add_failures (e ∷ errors) result = add_failures errors (add_failure resource_import_list e result)

unfoldable pub count_import_lists : Result (Option ImportListStats) → ApplyResult → ApplyResult
unfolding add_failures
count_import_lists (err e) result =
    add_failure resource_import_list ("failed to apply import lists: " <> e) result
count_import_lists (ok none) result = result
count_import_lists (ok (some stats)) result = add_failures stats.errors (record result {
  applied = result.applied + (stats.created + stats.updated + stats.deleted);
  skipped = result.skipped + stats.skipped;
})

-- The body of the other two branches.
abbrev pub count_call : String → Option String → ApplyResult → ApplyResult
count_call resource_type none result = record result { applied = result.applied + 1 }
count_call resource_type (some e) result = add_failure resource_type e result

module _ {S : Type 0} where
  unfoldable pub direct_import_lists :
      Ir → DirectApplyCallbacks S → ApplyResult → S → ApplyResult × S
  unfolding count_import_lists
  direct_import_lists ir callbacks result s = elim callbacks.apply_import_lists [
    | none ↦ (result, s)
    | some call ↦
        let (r, s') = call s in
        if is_nil ir.import_lists then (result, s) else (count_import_lists r result, s')
  ]

  -- A callback is called if it is there and the representation has the part that it applies.
  abbrev pub direct_call {ℓ} :
      {A : Type ℓ}
      → String
      → Option A
      → Option (S → Option String × S)
      → ApplyResult
      → S
      → ApplyResult × S
  direct_call resource_type part none result s = (result, s)
  direct_call resource_type none (some call) result s = (result, s)
  direct_call resource_type (some _) (some call) result s =
      let (e, s') = call s in (count_call resource_type e result, s')

  unfoldable pub apply_direct : Ir → DirectApplyCallbacks S → S → ApplyResult × S
  unfolding direct_import_lists
  apply_direct ir callbacks s =
      let (r₁, s₁) = direct_import_lists ir callbacks no_result s in
      let (r₂, s₂) =
        direct_call resource_media_management ir.media_management callbacks.apply_media_management
          r₁ s₁ in
      direct_call resource_authentication ir.authentication callbacks.apply_authentication r₂ s₂
