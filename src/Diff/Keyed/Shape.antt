-- ===== src/Diff/Keyed/Shape.antt =====
-- The change set of a diff by name, written as three lists.
use mathlib.Core.List.{append_assoc, append-nil}
use nebularr_operator.Common.{
  String, none, some, List, [], ◌∷◌, ◌++◌, ◌≡◌, ◌∙◌, arith, if◌then◌else◌, string_eq, Option-cases,
  inl, inr,
}
use nebularr_operator.Common.Dict.{Dict, lookup, insert, NodupKeys, insert-NodupKeys}
use nebularr_operator.Common.Range.{RangeOrder}
use nebularr_operator.Changes.{Change, ChangeSet}
use nebularr_operator.Diff.Keyed.{
  Keyed, index_onto, index, upsert, upserts, prune, prunes, diff_keyed,
}

module _ {A : Type 0} (K : Keyed A) where
  unfoldable pub creates_of : Dict String A → Dict String A → List Change
  creates_of current [] = []
  creates_of current ((name, d) ∷ rest) = elim (lookup name current) [
    | none ↦ K.create name d ∷ creates_of current rest
    | some a ↦ creates_of current rest
  ]

  unfoldable pub updates_of : Dict String A → Dict String A → List Change
  updates_of current [] = []
  updates_of current ((name, d) ∷ rest) = elim (lookup name current) [
    | none ↦ updates_of current rest
    | some a ↦
        if K.equal a d then updates_of current rest else K.update name a d ∷ updates_of current rest
  ]

  unfoldable pub deletes_of : Dict String A → Dict String A → List Change
  deletes_of desired [] = []
  deletes_of desired ((name, a) ∷ rest) = elim (lookup name desired) [
    | none ↦ K.delete name a ∷ deletes_of desired rest
    | some _ ↦ deletes_of desired rest
  ]

  upserts-creates_of :
      (current l : Dict String A) (cs : ChangeSet)
      → upserts K current l cs ≡ record cs {
        creates = cs.creates ++ creates_of current l;
        updates = cs.updates ++ updates_of current l;
      }
  unfolding upserts creates_of updates_of
  upserts-creates_of current [] cs = ground (arith, append-nil cs.creates, append-nil cs.updates)
  upserts-creates_of current ((name, d) ∷ l) cs =
      upserts-creates_of current l (upsert K current name d cs)
      ∙ elim (Option-cases (lookup name current)) [
        | inl e ↦
            ground (arith, append_assoc cs.creates (K.create name d ∷ []) (creates_of current l))
        | inr (a, e) ↦
            ground (arith, append_assoc cs.updates (K.update name a d ∷ []) (updates_of current l))
      ]

  prunes-deletes_of :
      (desired l : Dict String A) (cs : ChangeSet)
      → prunes K desired l cs ≡ record cs { deletes = cs.deletes ++ deletes_of desired l }
  unfolding prunes deletes_of
  prunes-deletes_of desired [] cs = ground (arith, append-nil cs.deletes)
  prunes-deletes_of desired ((name, a) ∷ l) cs =
      prunes-deletes_of desired l (prune K desired name a cs)
      ∙ ground (arith, append_assoc cs.deletes (K.delete name a ∷ []) (deletes_of desired l))

  pub index_onto-NodupKeys :
      (items : List A) (m : Dict String A) → NodupKeys m → NodupKeys (index_onto K m items)
  unfolding index_onto
  index_onto-NodupKeys [] m u = u
  index_onto-NodupKeys (a ∷ items) m u =
      index_onto-NodupKeys items (insert (K.key a) a m) (insert-NodupKeys (K.key a) a m u)

  -- The change set of a diff by name, as three lists.
  unfoldable pub changes_of :
      RangeOrder (String × A) → RangeOrder (String × A) → List A → List A → ChangeSet
  changes_of over_desired over_current current desired = record {
    creates = creates_of (index K current) (over_desired.visit (index K desired));
    updates = updates_of (index K current) (over_desired.visit (index K desired));
    deletes = deletes_of (index K desired) (over_current.visit (index K current));
  }

  pub diff_keyed-changes_of :
      (od oc : RangeOrder (String × A)) (current desired : List A) (cs : ChangeSet)
      → let new = changes_of od oc current desired in
        diff_keyed K od oc current desired cs ≡ record {
          creates = cs.creates ++ new.creates;
          updates = cs.updates ++ new.updates;
          deletes = cs.deletes ++ new.deletes;
        }
  unfolding changes_of diff_keyed
  diff_keyed-changes_of od oc current desired cs =
      prunes-deletes_of (index K desired) (oc.visit (index K current))
        (upserts K (index K current) (od.visit (index K desired)) cs)
      ∙ rw upserts-creates_of
