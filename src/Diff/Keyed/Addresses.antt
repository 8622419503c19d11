-- ===== src/Diff/Keyed/Addresses.antt =====
-- The changes of a diff by name are about the right resources.
use mathlib.Core.Option.{none-ne-some}
use nebularr_operator.Common.{
  ◌++◌, ◌==◌, false, ap, ◌∙◌, String, ℤ, Option, none, some, List, [], ◌∷◌, ◌≡◌, arith, string_eq,
  Option-cases, Bool-cases, inl, inr, All,
}
use nebularr_operator.Common.Dict.{Dict, lookup, NodupKeys}
use nebularr_operator.Common.Range.{RangeOrder, visit-NodupKeys, lookup-visit}
use nebularr_operator.Changes.{Change, ChangeSet, empty_changes}
use nebularr_operator.Diff.Keyed.{Keyed, index, diff_keyed}
use nebularr_operator.Diff.Keyed.Shape.{
  creates_of, updates_of, deletes_of, changes_of, diff_keyed-changes_of, index_onto-NodupKeys,
}

module _ {A : Type 0} (K : Keyed A) (P : Change → Type 0) where
  creates_of-All :
      (current l : Dict String A)
      → ((name : String) (d : A) → lookup name current ≡ none → P (K.create name d))
      → All P (creates_of K current l)
  unfolding creates_of
  creates_of-All current [] h = tt
  creates_of-All current ((name, d) ∷ l) h = elim (Option-cases (lookup name current)) [
    | inl e ↦ rw (e, creates_of) (h name d e, creates_of-All current l h)
    | inr (a, e) ↦ rw (e, creates_of) (creates_of-All current l h)
  ]

  updates_of-All :
      (current l : Dict String A)
      → ((name : String) (a d : A) → lookup name current ≡ some a → P (K.update name a d))
      → All P (updates_of K current l)
  unfolding updates_of
  updates_of-All current [] h = tt
  updates_of-All current ((name, d) ∷ l) h = elim (Option-cases (lookup name current)) [
    | inl e ↦ rw (e, updates_of) (updates_of-All current l h)
    | inr (a, e) ↦
        rw (e, updates_of)
          (elim (Bool-cases (K.equal a d)) [
            | inl q ↦ rw q (updates_of-All current l h)
            | inr q ↦ rw q (h name a d e, updates_of-All current l h)
          ])
  ]

  deletes_of-All :
      (desired l : Dict String A)
      → NodupKeys l
      → ((name : String) (a : A)
          → lookup name desired ≡ none
          → lookup name l ≡ some a
          → P (K.delete name a))
      → All P (deletes_of K desired l)
  unfolding deletes_of lookup
  deletes_of-All desired [] u h = tt
  deletes_of-All desired ((name, a) ∷ l) u h =
      let rest = deletes_of-All desired l u.1 (λ n b e f. h n b e (ground (arith, u.0))) in
      elim (Option-cases (lookup name desired)) [
        | inl e ↦ rw (e, deletes_of) (h name a e (ground arith), rest)
        | inr (b, e) ↦ rw (e, deletes_of) rest
      ]

-- A change is one of those of a list.
abbrev pub IsAmong : Change → List Change → Type 0
IsAmong c l = (before : List Change) × (after : List Change) × (l ≡ before ++ c ∷ after)

module _ {A : Type 0} (K : Keyed A) where
  updates_of-IsAmong :
      (current l : Dict String A) (n : String) (c d : A)
      → lookup n current ≡ some c
      → lookup n l ≡ some d
      → K.equal c d ≡ false
      → IsAmong (K.update n c d) (updates_of K current l)
  unfolding updates_of lookup
  updates_of-IsAmong current [] n c d held wanted differ = absurd (none-ne-some d wanted)
  updates_of-IsAmong current ((j, b) ∷ l) n c d held wanted differ = elim (Bool-cases (n == j)) [
    | inl same ↦ ([], updates_of K current l, ground arith)
    | inr other ↦
        let (before, after, e) = updates_of-IsAmong current l n c d held (ground arith) differ in
        elim (Option-cases (lookup j current)) [
          | inl f ↦ (before, after, rw (updates_of, f) e)
          | inr (x, f) ↦ elim (Bool-cases (K.equal x b)) [
            | inl q ↦ (before, after, rw (updates_of, f, q) e)
            | inr q ↦ (
              K.update j x b ∷ before,
              after,
              rw (updates_of, f, q) (ap (λ (cs : List Change). K.update j x b ∷ cs) e),
            )
          ]
        ]
  ]

  -- A current item that does not equal the wanted one of its key is updated.
  pub diff_keyed-IsAmong :
      (od oc : RangeOrder (String × A)) (current desired : List A) (n : String) (c d : A)
      → lookup n (index K current) ≡ some c
      → lookup n (index K desired) ≡ some d
      → K.equal c d ≡ false
      → IsAmong (K.update n c d) (diff_keyed K od oc current desired empty_changes).updates
  unfolding changes_of
  diff_keyed-IsAmong od oc current desired n c d held wanted differ =
      let dm = index K desired in
      rw (diff_keyed-changes_of K od oc current desired empty_changes) (
        updates_of-IsAmong (index K current) (od.visit dm) n c d held
          (lookup-visit od dm n (index_onto-NodupKeys K desired [] tt) ∙ wanted) differ)

-- The diff names a change after the key, and gives the id of the current value, if the kind has one.
pub record IsLabelled {A : Type 0} (K : Keyed A) (id : A → Option ℤ) : Type 0 where
  pub create : (n : String) (d : A) → ((K.create n d).name ≡ n) × ((K.create n d).id ≡ none)
  pub update : (n : String) (c d : A) → ((K.update n c d).name ≡ n) × ((K.update n c d).id ≡ id c)
  pub delete : (n : String) (c : A) → ((K.delete n c).name ≡ n) × ((K.delete n c).id ≡ id c)

module _ {A : Type 0} (id : A → Option ℤ) (current desired : Dict String A) where
  -- A create is of a key that is not there, and has no id.
  abbrev pub IsNew : Change → Type 0
  IsNew c = (lookup c.name current ≡ none) × (c.id ≡ none)

  -- An update is of a resource that is there, by its id.
  abbrev pub IsOfCurrent : Change → Type 0
  IsOfCurrent c = (a : A) × (lookup c.name current ≡ some a) × (c.id ≡ id a)

  -- A delete is of a resource that is there and not wanted, by its id.
  abbrev pub IsUnwanted : Change → Type 0
  IsUnwanted c = IsOfCurrent c × (lookup c.name desired ≡ none)

  pub record IsAddressed (cs : ChangeSet) : Type 0 where
    pub creates : All IsNew cs.creates
    pub updates : All IsOfCurrent cs.updates
    pub deletes : All IsUnwanted cs.deletes

module _ {A : Type 0} (K : Keyed A) (id : A → Option ℤ) (L : IsLabelled K id)
    (od oc : RangeOrder (String × A)) where
  pub diff_keyed-IsAddressed :
      (current desired : List A)
      → IsAddressed id
          (index K current)
          (index K desired)
          (diff_keyed K od oc current desired empty_changes)
  unfolding changes_of
  diff_keyed-IsAddressed current desired =
      let cm = index K current in
      let dm = index K desired in
      let u = index_onto-NodupKeys K current [] tt in
      rw (diff_keyed-changes_of K od oc current desired empty_changes) (record {
        creates =
            creates_of-All K (IsNew id cm dm) cm (od.visit dm)
              (λ n d e. ground (arith, L.create n d));
        updates =
            updates_of-All K (IsOfCurrent id cm dm) cm (od.visit dm)
              (λ n a d e. (a, ground (arith, L.update n a d), (L.update n a d).1));
        deletes =
            deletes_of-All K (IsUnwanted id cm dm) dm (oc.visit cm) (visit-NodupKeys oc cm u)
              (λ n a e f. (
                (a, ground (arith, L.delete n a, lookup-visit oc cm n u), (L.delete n a).1),
                ground (arith, L.delete n a),
              ));
      })
