-- ===== src/Diff/Keyed/Agree.antt =====
-- Two descriptions of one kind that write the same changes about the current resources have the
-- same diff.
use nebularr_operator.Common.{
  String, some, List, [], ◌∷◌, ◌≡◌, refl, sym, ◌∙◌, arith, string_eq, Option-cases, inl, inr,
}
use nebularr_operator.Common.Dict.{Dict, lookup, insert, NodupKeys}
use nebularr_operator.Common.Range.{RangeOrder, visit-NodupKeys, lookup-visit}
use nebularr_operator.Changes.{Change, ChangeSet}
use nebularr_operator.Diff.Keyed.{
  Keyed, index_onto, index, upsert, upserts, prune, prunes, diff_keyed,
}
use nebularr_operator.Diff.Keyed.Shape.{index_onto-NodupKeys}

module _ {A : Type 0} (K : Keyed A) (update : String → A → A → Change)
    (delete : String → A → Change) where
  abbrev pub relabelled : Keyed A
  relabelled = record K { update = update; delete = delete }

  upserts-relabelled :
      (current l : Dict String A) (cs : ChangeSet)
      → ((n : String) (c d : A) → lookup n current ≡ some c → K.update n c d ≡ update n c d)
      → upserts relabelled current l cs ≡ upserts K current l cs
  unfolding upserts
  upserts-relabelled current [] cs h = refl
  upserts-relabelled current ((n, d) ∷ l) cs h = elim (Option-cases (lookup n current)) [
    | inl e ↦ rw (e, upsert) (upserts-relabelled current l _ h)
    | inr (c, e) ↦ rw (e, upsert, h n c d e) (upserts-relabelled current l _ h)
  ]

  prune-relabelled :
      (desired : Dict String A) (n : String) (c : A) (cs : ChangeSet)
      → K.delete n c ≡ delete n c
      → prune relabelled desired n c cs ≡ prune K desired n c cs
  unfolding prune
  prune-relabelled desired n c cs e = ground arith

  prunes-relabelled :
      (desired l : Dict String A) (cs : ChangeSet)
      → NodupKeys l
      → ((n : String) (c : A) → lookup n l ≡ some c → K.delete n c ≡ delete n c)
      → prunes relabelled desired l cs ≡ prunes K desired l cs
  unfolding prunes lookup
  prunes-relabelled desired [] cs u h = refl
  prunes-relabelled desired ((n, c) ∷ l) cs u h =
      rw (prune-relabelled desired n c cs (h n c (ground arith)))
        (prunes-relabelled desired l _ u.1 (λ m b e. h m b (ground (arith, u.0))))

  index_onto-relabelled :
      (m : Dict String A) (items : List A) → index_onto relabelled m items ≡ index_onto K m items
  unfolding index_onto
  index_onto-relabelled m [] = refl
  index_onto-relabelled m (a ∷ items) = index_onto-relabelled (insert (K.key a) a m) items

  pub diff_keyed-relabelled :
      (od oc : RangeOrder (String × A)) (current desired : List A) (cs : ChangeSet)
      → ((n : String) (c d : A)
          → lookup n (index K current) ≡ some c
          → (K.update n c d ≡ update n c d) × (K.delete n c ≡ delete n c))
      → diff_keyed relabelled od oc current desired cs ≡ diff_keyed K od oc current desired cs
  unfolding diff_keyed
  diff_keyed-relabelled od oc current desired cs h =
      let cm = index K current in
      let u = index_onto-NodupKeys K current [] tt in
      rw
        (
          index_onto-relabelled [] current,
          index_onto-relabelled [] desired,
          upserts-relabelled cm (od.visit (index K desired)) cs (λ n c d e. (h n c d e).0),
        )
        (prunes-relabelled _ (oc.visit cm) _ (visit-NodupKeys oc cm u)
          (λ n c e. (h n c c (sym (lookup-visit oc cm n u) ∙ e)).1))
