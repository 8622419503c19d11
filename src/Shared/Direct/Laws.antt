-- ===== src/Shared/Direct/Laws.antt =====
-- What a direct application reports.
use mathlib.Core.List.{append_assoc, append-nil}
use mathlib.Core.Path.{subst}
use nebularr_operator.Common.{
  ℕ, ◌+◌, String, ◌<>◌, ◌≡◌, refl, ap, ◌∙◌, arith, Option, none, some, List, [], ◌∷◌, ◌++◌, length,
  length-append, Result, ok, err, if◌then◌else◌, Bool-cases, Option-cases, inl, inr,
}
use nebularr_operator.Ir.{Ir}
use nebularr_operator.Changes.{
  ApplyError, ApplyResult, no_result, is_nil, resource_import_list, resource_media_management,
  resource_authentication,
}
use nebularr_operator.Shared.Direct.{
  ImportListStats, DirectApplyCallbacks, add_failure, add_failures, count_import_lists,
  direct_import_lists, direct_call, apply_direct, resource_change,
}

-- What an answer adds to a result: what was applied, what was passed over, and the errors.
pub record Added : Type 0 where
  pub applied : ℕ
  pub skipped : ℕ
  pub errors : List ApplyError

abbrev pub nothing : Added
nothing = record { applied = 0; skipped = 0; errors = [] }

-- One error of a type for each text, in their order.
abbrev pub errors_of : String → List String → List ApplyError
errors_of type [] = []
errors_of type (e ∷ es) =
    record {
      change = record { resource_type = type; name = ""; id = none; payload = none };
      error = e;
    }
    ∷ errors_of type es

abbrev pub added_by_lists : Option (Result (Option ImportListStats)) → Added
added_by_lists none = nothing
added_by_lists (some (ok none)) = nothing
added_by_lists (some (err e)) = record {
  applied = 0;
  skipped = 0;
  errors = errors_of "ImportList" (("failed to apply import lists: " <> e) ∷ []);
}
added_by_lists (some (ok (some stats))) = record {
  applied = stats.created + stats.updated + stats.deleted;
  skipped = stats.skipped;
  errors = errors_of "ImportList" stats.errors;
}

abbrev pub added_by_call : String → Option (Option String) → Added
added_by_call type none = nothing
added_by_call type (some none) = record { applied = 1; skipped = 0; errors = [] }
added_by_call type (some (some e)) = record {
  applied = 0;
  skipped = 0;
  errors = errors_of type (e ∷ []);
}

-- The result `r'` is `r` with what was added, and with a failure counted for each error.
abbrev pub IsExtended : ApplyResult → Added → ApplyResult → Type 0
IsExtended r a r' =
    (r'.applied ≡ r.applied + a.applied)
    × (r'.skipped ≡ r.skipped + a.skipped)
    × (r'.failed ≡ r.failed + length a.errors)
    × (r'.errors ≡ r.errors ++ a.errors)

nothing-IsExtended : (r : ApplyResult) → IsExtended r nothing r
nothing-IsExtended r = ground (arith, append-nil r.errors)

add_failures-IsExtended :
    (errors : List String) (r : ApplyResult)
    → let r' = add_failures errors r in
      (r'.applied ≡ r.applied)
      × (r'.skipped ≡ r.skipped)
      × (r'.failed ≡ r.failed + length (errors_of "ImportList" errors))
      × (r'.errors ≡ r.errors ++ errors_of "ImportList" errors)
unfolding add_failures
add_failures-IsExtended [] r = ground (arith, append-nil r.errors)
add_failures-IsExtended (e ∷ errors) r =
    let failure : ApplyError = record {
      change = resource_change resource_import_list;
      error = e;
    } in
    ground (
      arith,
      add_failures-IsExtended errors (add_failure resource_import_list e r),
      append_assoc r.errors (failure ∷ []) (errors_of "ImportList" errors),
    )

count_import_lists-IsExtended :
    (o : Result (Option ImportListStats)) (r : ApplyResult)
    → IsExtended r (added_by_lists (some o)) (count_import_lists o r)
unfolding count_import_lists
count_import_lists-IsExtended (err e) r = ground arith
count_import_lists-IsExtended (ok none) r = nothing-IsExtended r
count_import_lists-IsExtended (ok (some stats)) r = ground (
  arith,
  add_failures-IsExtended stats.errors (record r {
    applied = r.applied + (stats.created + stats.updated + stats.deleted);
    skipped = r.skipped + stats.skipped;
  }),
)

-- What three answers add to the empty result.
all-IsExtended :
    (a b c : Added) (r₁ r₂ r₃ : ApplyResult)
    → IsExtended no_result a r₁
    → IsExtended r₁ b r₂
    → IsExtended r₂ c r₃
    → (r₃.applied ≡ a.applied + b.applied + c.applied)
      × (r₃.skipped ≡ a.skipped + b.skipped + c.skipped)
      × (r₃.errors ≡ a.errors ++ b.errors ++ c.errors)
      × (r₃.failed ≡ length r₃.errors)
all-IsExtended a b c r₁ r₂ r₃ (d₁, k₁, f₁, e₁) (d₂, k₂, f₂, e₂) (d₃, k₃, f₃, e₃) =
    let errors : r₃.errors ≡ (a.errors ++ b.errors) ++ c.errors =
      e₃ ∙ ap (λ l. l ++ c.errors) (e₂ ∙ ap (λ l. l ++ b.errors) e₁) in
    (
      omega (arith, d₁, d₂, d₃),
      omega (arith, k₁, k₂, k₃),
      errors,
      omega (
        arith,
        f₁,
        f₂,
        f₃,
        ap length errors,
        length-append (a.errors ++ b.errors) c.errors,
        length-append a.errors b.errors,
      ),
    )

module _ {S : Type 0} where
  -- What the callbacks answer, if they are called.
  abbrev pub lists_answer :
      Ir → DirectApplyCallbacks S → S → Option (Result (Option ImportListStats))
  lists_answer ir cb s = elim cb.apply_import_lists [
    | none ↦ none
    | some call ↦ if is_nil ir.import_lists then none else some (call s).0
  ]

  abbrev pub call_answer {ℓ} :
      {A : Type ℓ} → Option A → Option (S → Option String × S) → S → Option (Option String)
  call_answer part none s = none
  call_answer none (some call) s = none
  call_answer (some _) (some call) s = some (call s).0

  direct_import_lists-IsExtended :
      (ir : Ir) (cb : DirectApplyCallbacks S) (r : ApplyResult) (s : S)
      → IsExtended r (added_by_lists (lists_answer ir cb s)) (direct_import_lists ir cb r s).0
  unfolding direct_import_lists
  direct_import_lists-IsExtended ir cb r s = elim (Option-cases cb.apply_import_lists) [
    | inl e ↦ rw e (nothing-IsExtended r)
    | inr (call, e) ↦ rw e (elim (Bool-cases (is_nil ir.import_lists)) [
      | inl nil ↦ rw nil (nothing-IsExtended r)
      | inr cons ↦ rw cons (count_import_lists-IsExtended (call s).0 r)
    ])
  ]

  direct_call-IsExtended {ℓ} :
      {A : Type ℓ} (t : String) (part : Option A) (cb : Option (S → Option String × S))
      (r : ApplyResult) (s : S)
      → IsExtended r (added_by_call t (call_answer part cb s)) (direct_call t part cb r s).0
  direct_call-IsExtended t part none r s = nothing-IsExtended r
  direct_call-IsExtended t none (some call) r s = nothing-IsExtended r
  direct_call-IsExtended t (some _) (some call) r s = elim (Option-cases (call s).0) [
    | inl e ↦ rw e (ground (arith, append-nil r.errors))
    | inr (m, e) ↦ rw e (ground arith)
  ]

  -- What the three callbacks do to the world, each called where the representation has its part.
  abbrev pub after_lists : Ir → DirectApplyCallbacks S → S → S
  after_lists ir cb s = elim cb.apply_import_lists [
    | none ↦ s
    | some call ↦ if is_nil ir.import_lists then s else (call s).1
  ]

  abbrev pub after_call {ℓ} : {A : Type ℓ} → Option A → Option (S → Option String × S) → S → S
  after_call part none s = s
  after_call none (some call) s = s
  after_call (some _) (some call) s = (call s).1

  direct_import_lists-after :
      (ir : Ir) (cb : DirectApplyCallbacks S) (r : ApplyResult) (s : S)
      → (direct_import_lists ir cb r s).1 ≡ after_lists ir cb s
  unfolding direct_import_lists
  direct_import_lists-after ir cb r s = elim (Option-cases cb.apply_import_lists) [
    | inl e ↦ rw e refl
    | inr (call, e) ↦ rw e (elim (Bool-cases (is_nil ir.import_lists)) [
      | inl nil ↦ rw nil refl
      | inr cons ↦ rw cons refl
    ])
  ]

  direct_call-after {ℓ} :
      {A : Type ℓ} (t : String) (part : Option A) (cb : Option (S → Option String × S))
      (r : ApplyResult) (s : S)
      → (direct_call t part cb r s).1 ≡ after_call part cb s
  direct_call-after t part none r s = refl
  direct_call-after t none (some call) r s = refl
  direct_call-after t (some _) (some call) r s = refl

  -- The answers of the three calls, each made in the world that the calls before it leave.
  abbrev pub answers : Ir → DirectApplyCallbacks S → S → Added × Added × Added
  answers ir cb s =
      let s₁ = after_lists ir cb s in
      let s₂ = after_call ir.media_management cb.apply_media_management s₁ in
      (
        added_by_lists (lists_answer ir cb s),
        added_by_call "MediaManagement"
            (call_answer ir.media_management cb.apply_media_management s₁),
        added_by_call "Authentication" (call_answer ir.authentication cb.apply_authentication s₂),
      )

  -- `ApplyDirect` makes the calls for the import lists, the media management and the authentication in
  -- this order, each where the representation has that part and the callback is not nil, and whether
  -- or not a call before it failed. The result has one more applied for each import list that was created,
  -- updated or deleted and for each of the other two calls that succeeded, the skipped import lists, and exactly the
  -- errors of the calls and of single import lists, in their order and with their type, each counted as a failure.
  pub apply_direct_accounts :
      (ir : Ir) (cb : DirectApplyCallbacks S) (s : S)
      → let (r, s') = apply_direct ir cb s in
        let (a, b, c) = answers ir cb s in
        (s'
          ≡ after_call ir.authentication cb.apply_authentication
              (after_call ir.media_management cb.apply_media_management (after_lists ir cb s)))
        × (r.applied ≡ a.applied + b.applied + c.applied)
        × (r.skipped ≡ a.skipped + b.skipped + c.skipped)
        × (r.errors ≡ a.errors ++ b.errors ++ c.errors)
        × (r.failed ≡ length r.errors)
  unfolding apply_direct
  apply_direct_accounts ir cb s =
      let (r₁, s₁) = direct_import_lists ir cb no_result s in
      let (r₂, s₂) =
        direct_call resource_media_management ir.media_management cb.apply_media_management r₁ s₁ in
      let (r₃, s₃) =
        direct_call resource_authentication ir.authentication cb.apply_authentication r₂ s₂ in
      let first = direct_import_lists-after ir cb no_result s in
      let second =
        direct_call-after resource_media_management ir.media_management cb.apply_media_management r₁
          s₁
        ∙ ap (after_call ir.media_management cb.apply_media_management) first in
      let (applied, skipped, errors, failed) =
        all-IsExtended _ _ _ r₁ r₂ r₃ (direct_import_lists-IsExtended ir cb no_result s)
          (subst
            (λ w.
              IsExtended r₁
                (added_by_call "MediaManagement"
                  (call_answer ir.media_management cb.apply_media_management w))
                r₂)
            first
            (direct_call-IsExtended resource_media_management ir.media_management
              cb.apply_media_management r₁ s₁))
          (subst
            (λ w.
              IsExtended r₂
                (added_by_call "Authentication"
                  (call_answer ir.authentication cb.apply_authentication w))
                r₃)
            second
            (direct_call-IsExtended resource_authentication ir.authentication
              cb.apply_authentication r₂ s₂)) in
      (
        direct_call-after resource_authentication ir.authentication cb.apply_authentication r₂ s₂
            ∙ ap (after_call ir.authentication cb.apply_authentication) second,
        applied,
        skipped,
        errors,
        failed,
      )
