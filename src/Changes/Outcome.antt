-- ===== src/Changes/Outcome.antt =====
-- What `ApplyChanges` reports: every change is tried, and every failure is accounted for.
use nebularr_operator.Common.{
  String, Option, none, some, List, [], ◌∷◌, ◌+◌, ◌++◌, ◌≡◌, refl, true, ◌↔◌, length, length-append,
  arith, ℕ, suc, map, ◌∙◌, ap, length-map,
}
use mathlib.Core.List.{append_assoc, append-nil}
use nebularr_operator.Changes.Types.{
  Change, ChangeSet, ApplyError, ApplyResult, no_result, total_changes, success,
}
use nebularr_operator.Changes.Apply.{ApplyFunc, count_outcome, apply_each, apply_changes}

-- The calls of a run, each with what it returned.
abbrev pub Attempt : Type 0
Attempt = Change × Option String

pub successes : List Attempt → ℕ
successes [] = 0
successes ((c, none) ∷ attempts) = suc (successes attempts)
successes ((c, some e) ∷ attempts) = successes attempts

pub failures : List Attempt → List ApplyError
failures [] = []
failures ((c, none) ∷ attempts) = failures attempts
failures ((c, some e) ∷ attempts) = record { change = c; error = e } ∷ failures attempts

pub tally : List Attempt → ApplyResult
tally attempts = record {
  applied = successes attempts;
  failed = length (failures attempts);
  skipped = 0;
  errors = failures attempts;
}

successes-add-failures :
    (attempts : List Attempt) → successes attempts + length (failures attempts) ≡ length attempts
unfolding successes failures
successes-add-failures [] = refl
successes-add-failures ((c, none) ∷ rest) = omega (arith, successes-add-failures rest)
successes-add-failures ((c, some e) ∷ rest) = omega (arith, successes-add-failures rest)

success_iff :
    (attempts : List Attempt)
    → (success (tally attempts) ≡ true) ↔ (successes attempts ≡ length attempts)
unfolding success tally
success_iff attempts = ground (arith, successes-add-failures attempts)

-- The result after some more attempts.
plus : ApplyResult → List Attempt → ApplyResult
plus result attempts = record result {
  applied = result.applied + successes attempts;
  failed = result.failed + length (failures attempts);
  errors = result.errors ++ failures attempts;
}

plus-nil : (result : ApplyResult) → plus result [] ≡ result
unfolding plus successes failures
plus-nil result = ground (arith, append-nil result.errors)

plus-count_outcome :
    (result : ApplyResult) (c : Change) (e : Option String) (rest : List Attempt)
    → plus (count_outcome c e result) rest ≡ plus result ((c, e) ∷ rest)
unfolding plus successes failures
plus-count_outcome result c none rest = ground arith
plus-count_outcome result c (some e) rest =
    ground
      (arith, append_assoc result.errors (record { change = c; error = e } ∷ []) (failures rest))

successes-append : (xs ys : List Attempt) → successes (xs ++ ys) ≡ successes xs + successes ys
unfolding successes
successes-append [] ys = omega arith
successes-append ((c, none) ∷ xs) ys = omega (arith, successes-append xs ys)
successes-append ((c, some e) ∷ xs) ys = successes-append xs ys

failures-append : (xs ys : List Attempt) → failures (xs ++ ys) ≡ failures xs ++ failures ys
unfolding failures
failures-append [] ys = refl
failures-append ((c, none) ∷ xs) ys = failures-append xs ys
failures-append ((c, some e) ∷ xs) ys = rw (failures-append xs ys)

plus-append :
    (result : ApplyResult) (xs ys : List Attempt)
    → plus (plus result xs) ys ≡ plus result (xs ++ ys)
unfolding plus
plus-append result xs ys = ground (
  arith,
  successes-append xs ys,
  failures-append xs ys,
  append_assoc result.errors (failures xs) (failures ys),
  length-append (failures xs) (failures ys),
)

plus-no_result : (attempts : List Attempt) → plus no_result attempts ≡ tally attempts
unfolding plus tally
plus-no_result attempts = ground arith

module _ {S : Type 0} where
  -- All calls in order, each in the state that the call before it left, whatever that returned.
  pub attempt_all : List (ApplyFunc S × Change) → S → List Attempt × S
  attempt_all [] s = ([], s)
  attempt_all ((apply, change) ∷ jobs) s =
      let (e, s') = apply change s in
      let (rest, s'') = attempt_all jobs s' in ((change, e) ∷ rest, s'')

  abbrev pub jobs :
      ChangeSet → ApplyFunc S → ApplyFunc S → ApplyFunc S → List (ApplyFunc S × Change)
  jobs changes create_fn update_fn delete_fn =
      map (λ c. (create_fn, c)) changes.creates
      ++ (map (λ c. (update_fn, c)) changes.updates ++ map (λ c. (delete_fn, c)) changes.deletes)

  attempt_all-append :
      (js ks : List (ApplyFunc S × Change)) (s : S)
      → let (done, s') = attempt_all js s in
        let (rest, s'') = attempt_all ks s' in attempt_all (js ++ ks) s ≡ (done ++ rest, s'')
  unfolding attempt_all
  attempt_all-append [] ks s = refl
  attempt_all-append ((apply, c) ∷ js) ks s = rw (attempt_all-append js ks (apply c s).1)

  apply_each-attempt_all :
      (apply : ApplyFunc S) (changes : List Change) (result : ApplyResult) (s : S)
      → let (attempts, s') = attempt_all (map (λ c. (apply, c)) changes) s in
        apply_each apply changes result s ≡ (plus result attempts, s')
  unfolding apply_each attempt_all
  apply_each-attempt_all apply [] result s = rw plus-nil
  apply_each-attempt_all apply (c ∷ changes) result s =
      let (e, s') = apply c s in
      apply_each-attempt_all apply changes (count_outcome c e result) s' ∙ rw plus-count_outcome

  -- `ApplyChanges` calls the creates, the updates and the deletes in this order, each in the state
  -- that the call before it left, whether or not that call failed. It reports how many succeeded,
  -- how many failed, and the failed changes with their errors in the order of the calls.
  pub apply_changes-attempt_all :
      (changes : ChangeSet) (create_fn update_fn delete_fn : ApplyFunc S) (s : S)
      → let (attempts, s') = attempt_all (jobs changes create_fn update_fn delete_fn) s in
        apply_changes changes create_fn update_fn delete_fn s ≡ (tally attempts, s')
  unfolding apply_changes
  apply_changes-attempt_all changes cf uf df s =
      simp (apply_each-attempt_all, attempt_all-append, plus-append)
        (rw (plus-no_result, append_assoc))

  length-attempt_all :
      (js : List (ApplyFunc S × Change)) (s : S) → length (attempt_all js s).0 ≡ length js
  unfolding attempt_all
  length-attempt_all [] s = refl
  length-attempt_all ((apply, c) ∷ js) s = ap suc (length-attempt_all js (apply c s).1)

  length-jobs :
      (changes : ChangeSet) (create_fn update_fn delete_fn : ApplyFunc S)
      → length (jobs changes create_fn update_fn delete_fn) ≡ total_changes changes
  unfolding total_changes
  length-jobs changes cf uf df =
      rw (length-append, length-append)
        (omega (
          arith,
          length-map {B = ApplyFunc S × Change} (λ x. (cf, x)) changes.creates,
          length-map {B = ApplyFunc S × Change} (λ x. (uf, x)) changes.updates,
          length-map {B = ApplyFunc S × Change} (λ x. (df, x)) changes.deletes,
        ))

  -- Every change is counted once, as applied or as failed, nothing is skipped, there is an error
  -- for each failure, and the result is a success exactly when every change was applied.
  pub apply_changes_accounts :
      (changes : ChangeSet) (create_fn update_fn delete_fn : ApplyFunc S) (s : S)
      → let r = (apply_changes changes create_fn update_fn delete_fn s).0 in
        (r.applied + r.failed ≡ total_changes changes)
        × (r.skipped ≡ 0)
        × (length r.errors ≡ r.failed)
        × ((success r ≡ true) ↔ (r.applied ≡ total_changes changes))
  unfolding tally
  apply_changes_accounts changes cf uf df s =
      let attempts = (attempt_all (jobs changes cf uf df) s).0 in
      rw (apply_changes-attempt_all changes cf uf df s) (
        ground (
          arith,
          successes-add-failures attempts,
          length-attempt_all (jobs changes cf uf df) s,
          length-jobs changes cf uf df,
          success_iff attempts,
        ))
