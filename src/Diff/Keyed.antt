-- ===== src/Diff/Keyed.antt =====
-- The shape that the diffs by name share (internal/adapters/diff.go and
-- internal/adapters/shared/remotepathmappings.go): both sides are indexed in maps, a loop over the
-- desired map appends creates and updates, and a loop over the current map appends deletes.
pub mod Shape
pub mod Service
pub mod Agree
pub mod Addresses
pub mod Converge
use nebularr_operator.Common.{String, Bool, Option, none, some, List, [], ◌∷◌, if◌then◌else◌}
use nebularr_operator.Common.{string_eq}
use nebularr_operator.Common.Dict.{Dict, lookup, insert}
use nebularr_operator.Common.Range.{RangeOrder}
use nebularr_operator.Changes.{Change, ChangeSet, add_create, add_update, add_delete}

-- What the diff of one kind of resource fills in. `update` takes the current and the desired value.
pub record Keyed (A : Type 0) : Type 0 where
  pub key : A → String
  pub equal : A → A → Bool
  pub create : String → A → Change
  pub update : String → A → A → Change
  pub delete : String → A → Change

module _ {A : Type 0} where
  -- `for _, a := range items { m[key(a)] = a }`
  unfoldable pub index_onto : Keyed A → Dict String A → List A → Dict String A
  index_onto K m [] = m
  index_onto K m (a ∷ items) = index_onto K (insert (K.key a) a m) items

  abbrev pub index : Keyed A → List A → Dict String A
  index K items = index_onto K [] items

  -- The body of the loop over the desired map.
  unfoldable pub upsert : Keyed A → Dict String A → String → A → ChangeSet → ChangeSet
  upsert K current name desired cs = elim (lookup name current) [
    | none ↦ add_create (K.create name desired) cs
    | some a ↦ if K.equal a desired then cs else add_update (K.update name a desired) cs
  ]

  unfoldable pub upserts : Keyed A → Dict String A → Dict String A → ChangeSet → ChangeSet
  unfolding upsert
  upserts K current [] cs = cs
  upserts K current ((name, desired) ∷ rest) cs =
      upserts K current rest (upsert K current name desired cs)

  -- The body of the loop over the current map.
  unfoldable pub prune : Keyed A → Dict String A → String → A → ChangeSet → ChangeSet
  prune K desired name current cs = elim (lookup name desired) [
    | none ↦ add_delete (K.delete name current) cs
    | some _ ↦ cs
  ]

  unfoldable pub prunes : Keyed A → Dict String A → Dict String A → ChangeSet → ChangeSet
  unfolding prune
  prunes K desired [] cs = cs
  prunes K desired ((name, current) ∷ rest) cs =
      prunes K desired rest (prune K desired name current cs)

  -- The orders are those of the loop over the desired and of the loop over the current map.
  unfoldable pub diff_keyed :
      Keyed A
      → RangeOrder (String × A)
      → RangeOrder (String × A)
      → List A
      → List A
      → ChangeSet
      → ChangeSet
  unfolding upserts prunes index_onto
  diff_keyed K over_desired over_current current desired cs =
      let current_map = index K current in
      let desired_map = index K desired in
      prunes K desired_map (over_current.visit current_map)
        (upserts K current_map (over_desired.visit desired_map) cs)
