-- ===== src/Diff/Keyed/Converge.antt =====
-- Carrying out a diff settles every key, and a settled service has no further changes.
use mathlib.Core.List.{append-nil}
use mathlib.Core.Option.{none-ne-some}
use nebularr_operator.Common.{
  String, true, Option, none, some, List, [], ◌∷◌, ◌≡◌, refl, sym, ◌∙◌, arith, string_eq,
  Option-cases, inl, inr,
}
use nebularr_operator.Common.Dict.{Dict, lookup, NodupKeys}
use nebularr_operator.Common.Range.{RangeOrder, visit-NodupKeys, lookup-visit, All-visit}
use nebularr_operator.Changes.{ChangeSet, empty_changes}
use nebularr_operator.Diff.Keyed.{Keyed, index, index_onto, diff_keyed}
use nebularr_operator.Diff.Keyed.Shape.{
  creates_of, updates_of, deletes_of, changes_of, diff_keyed-changes_of, index_onto-NodupKeys,
}
use nebularr_operator.Diff.Keyed.Service.{
  Reading, IsReadBy, put_all, update_all, serve, settled, index_onto-IsKeyed, lookup-put_creates,
  lookup-put_updates, lookup-erase_deletes,
}

-- A change set that creates and updates nothing.
abbrev pub OnlyDeletes : ChangeSet → Type 0
OnlyDeletes cs = (cs.creates ≡ []) × (cs.updates ≡ [])

module _ {A : Type 0} (K : Keyed A) where
  index-NodupKeys : (items : List A) → NodupKeys (index K items)
  index-NodupKeys items = index_onto-NodupKeys K items [] tt

  creates_of-eq-nil :
      (current l : Dict String A)
      → NodupKeys l
      → ((k : String) → lookup k current ≡ none → lookup k l ≡ none)
      → creates_of K current l ≡ []
  unfolding creates_of lookup
  creates_of-eq-nil current [] u h = refl
  creates_of-eq-nil current ((n, d) ∷ l) u h =
      ground (arith, creates_of-eq-nil current l u.1 (λ k e. ground (arith, h k e)), h n)

  updates_of-eq-nil :
      (current l : Dict String A)
      → NodupKeys l
      → ((k : String) (a d : A)
          → lookup k current ≡ some a
          → lookup k l ≡ some d
          → K.equal a d ≡ true)
      → updates_of K current l ≡ []
  unfolding updates_of lookup
  updates_of-eq-nil current [] u h = refl
  updates_of-eq-nil current ((n, d) ∷ l) u h =
      let tail = updates_of-eq-nil current l u.1 (λ k a d' e f. h k a d' e (ground (arith, u.0))) in
      elim (Option-cases (lookup n current)) [
        | inl e ↦ ground (arith, tail)
        | inr (a, e) ↦ ground (arith, tail, h n a d e (ground arith))
      ]

  deletes_of-eq-nil :
      (desired l : Dict String A)
      → NodupKeys l
      → ((k : String) → lookup k desired ≡ none → lookup k l ≡ none)
      → deletes_of K desired l ≡ []
  unfolding deletes_of lookup
  deletes_of-eq-nil desired [] u h = refl
  deletes_of-eq-nil desired ((n, a) ∷ l) u h =
      ground (arith, deletes_of-eq-nil desired l u.1 (λ k e. ground (arith, h k e)), h n)

  settled-equal :
      (R : Reading A) (d : A)
      → K.equal d d ≡ true
      → ((c : A) → K.equal (R.sent c d) d ≡ true)
      → (o : Option A) (a : A) → settled K R o (some d) ≡ some a
      → K.equal a d ≡ true
  settled-equal R d same kept none a e = ground arith
  settled-equal R d same kept (some c) a e = ground (arith, kept c)

  module _ (R : Reading A) (od oc : RangeOrder (String × A)) where
    pub lookup-serve-diff_keyed :
        IsReadBy K R
        → (current desired : List A) (k : String)
        → lookup k (serve R (diff_keyed K od oc current desired empty_changes) (index K current))
          ≡ settled K R (lookup k (index K current)) (lookup k (index K desired))
    unfolding serve changes_of
    lookup-serve-diff_keyed L current desired k =
        let cm = index K current in
        let dm = index K desired in
        let ukd = visit-NodupKeys od dm (index-NodupKeys desired) in
        let kd =
          All-visit (λ (p : String × A). K.key p.1 ≡ p.0) od dm
            (index_onto-IsKeyed K R desired [] tt) in
        let kc =
          All-visit (λ (p : String × A). K.key p.1 ≡ p.0) oc cm
            (index_onto-IsKeyed K R current [] tt) in
        let created = put_all R (creates_of K cm (od.visit dm)) cm in
        let updated = update_all R cm (updates_of K cm (od.visit dm)) created in
        rw diff_keyed-changes_of (
          ground (
            arith,
            lookup-put_creates K R L k cm (od.visit dm) cm ukd kd,
            lookup-put_updates K R L k cm (od.visit dm) created ukd kd,
            lookup-erase_deletes K R L k cm dm (oc.visit cm) updated
                (visit-NodupKeys oc cm (index-NodupKeys current)) kc
                (λ n a e. sym (lookup-visit oc cm n (index-NodupKeys current)) ∙ e),
            lookup-visit od dm k (index-NodupKeys desired),
            lookup-visit oc cm k (index-NodupKeys current),
          ))

    pub diff_keyed-settled :
        (current desired after : List A)
        → ((k : String) (d : A) → lookup k (index K desired) ≡ some d → K.equal d d ≡ true)
        → ((k : String) (c d : A)
            → lookup k (index K desired) ≡ some d
            → K.equal (R.sent c d) d ≡ true)
        → ((k : String)
            → lookup k (index K after)
              ≡ settled K R (lookup k (index K current)) (lookup k (index K desired)))
        → (cs : ChangeSet) → diff_keyed K od oc after desired cs ≡ cs
    unfolding changes_of
    diff_keyed-settled current desired after same kept h cs =
        let am = index K after in
        let dm = index K desired in
        let ud = index-NodupKeys desired in
        let ua = index-NodupKeys after in
        let c =
          creates_of-eq-nil am (od.visit dm) (visit-NodupKeys od dm ud)
            (λ k e. ground (arith, h k, lookup-visit od dm k ud)) in
        let u = updates_of-eq-nil am (od.visit dm) (visit-NodupKeys od dm ud) (λ k a d e f.
          let wanted = sym (lookup-visit od dm k ud) ∙ f in
          settled-equal R d (same k d wanted) (λ c. kept k c d wanted) (lookup k (index K current))
            a (ground (arith, h k))) in
        let x =
          deletes_of-eq-nil dm (oc.visit am) (visit-NodupKeys oc am ua)
            (λ k e. ground (arith, h k, lookup-visit oc am k ua)) in
        rw (diff_keyed-changes_of, c, u, x)
          (ground (arith, append-nil cs.creates, append-nil cs.updates, append-nil cs.deletes))

  pub diff_keyed-OnlyDeletes :
      (od oc : RangeOrder (String × A)) (current : List A)
      → OnlyDeletes (diff_keyed K od oc current [] empty_changes)
  unfolding changes_of lookup index_onto
  diff_keyed-OnlyDeletes od oc current =
      let am = index K current in
      let u = visit-NodupKeys od [] tt in
      let none_wanted : (k : String) → lookup k (od.visit []) ≡ none =
        λ k. lookup-visit od [] k tt in
      rw (diff_keyed-changes_of K od oc current [] empty_changes) (
        creates_of-eq-nil am (od.visit []) u (λ k e. none_wanted k),
        updates_of-eq-nil am (od.visit []) u
            (λ k a d e g. absurd (none-ne-some d (sym (none_wanted k) ∙ g))),
      )
