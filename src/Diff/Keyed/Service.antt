-- ===== src/Diff/Keyed/Service.antt =====
-- A service that holds the resources of one kind under their keys, and carries out change sets.
use mathlib.Core.Path.{subst}
use nebularr_operator.Common.{
  Bool, true, false, int_eq, ℤ, Bool-cases, String, Option, none, some, List, [], ◌∷◌, ◌≡◌, refl,
  arith, if◌then◌else◌, ◌==◌, string_eq, Option-cases, inl, inr, All,
}
use nebularr_operator.Common.Dict.{
  Dict, lookup, insert, erase, NodupKeys, lookup-nil, lookup-insert, lookup-erase,
}
use nebularr_operator.Changes.{Change, ChangeSet}
use nebularr_operator.Diff.Keyed.{Keyed, index_onto, index}
use nebularr_operator.Diff.Keyed.Shape.{creates_of, updates_of, deletes_of}

-- The id of a change is there and is that of the resource.
abbrev pub same_id : Option ℤ → ℤ → Bool
same_id none id = false
same_id (some i) id = i == id

-- How a service reads the changes of one kind: the key of the resource that a change is about, the
-- value that it carries, whether an update and a delete have what it takes to find the resource that the
-- service has under the key, and what is kept when the second value is sent for the first.
pub record Reading (A : Type 0) : Type 0 where
  pub target : Change → String
  pub payload : Change → Option A
  pub finds_updated : Change → A → Bool
  pub finds_deleted : Change → A → Bool
  pub sent : A → A → A

-- The diff writes changes in the way that the service reads them.
pub record IsReadBy {A : Type 0} (K : Keyed A) (R : Reading A) : Type 0 where
  pub target-create : (d : A) → R.target (K.create (K.key d) d) ≡ K.key d
  pub payload-create : (d : A) → R.payload (K.create (K.key d) d) ≡ some d
  pub target-update : (c d : A) → R.target (K.update (K.key d) c d) ≡ K.key d
  pub payload-update : (c d : A) → R.payload (K.update (K.key d) c d) ≡ some (R.sent c d)
  pub finds-update : (c d : A) → R.finds_updated (K.update (K.key d) c d) c ≡ true
  pub target-delete : (c : A) → R.target (K.delete (K.key c) c) ≡ K.key c
  pub finds-delete : (c : A) → R.finds_deleted (K.delete (K.key c) c) c ≡ true

module _ {A : Type 0} (R : Reading A) where
  pub put : Change → Dict String A → Dict String A
  put c m = elim (R.payload c) [ none ↦ m | some a ↦ insert (R.target c) a m ]

  pub put_all : List Change → Dict String A → Dict String A
  put_all [] m = m
  put_all (c ∷ cs) m = put_all cs (put c m)

  -- Whether a change finds a resource of the service.
  pub finds : (Change → A → Bool) → Dict String A → Change → Bool
  finds test held c = elim (lookup (R.target c) held) [ none ↦ false | some a ↦ test c a ]

  -- An update or a delete that finds none of the resources held is refused.
  pub update_all : Dict String A → List Change → Dict String A → Dict String A
  update_all held [] m = m
  update_all held (c ∷ cs) m =
      update_all held cs (if finds R.finds_updated held c then put c m else m)

  pub erase_all : Dict String A → List Change → Dict String A → Dict String A
  erase_all held [] m = m
  erase_all held (c ∷ cs) m =
      erase_all held cs (if finds R.finds_deleted held c then erase (R.target c) m else m)

  unfoldable pub serve : ChangeSet → Dict String A → Dict String A
  unfolding put put_all update_all erase_all finds
  serve cs m = erase_all m cs.deletes (update_all m cs.updates (put_all cs.creates m))

module _ {A : Type 0} (K : Keyed A) (R : Reading A) where
  -- What a key should hold afterwards, from what it holds and what is wanted.
  abbrev pub settled : Option A → Option A → Option A
  settled c none = none
  settled none (some d) = some d
  settled (some c) (some d) = some (if K.equal c d then c else R.sent c d)

  abbrev pub IsKeyed : Dict String A → Type 0
  IsKeyed = All (λ (p : String × A). K.key p.1 ≡ p.0)

  pub insert-IsKeyed : (a : A) (m : Dict String A) → IsKeyed m → IsKeyed (insert (K.key a) a m)
  unfolding insert
  insert-IsKeyed a [] h = (refl, tt)
  insert-IsKeyed a ((j, w) ∷ m) h = ground (arith, insert-IsKeyed a m h.1)

  pub index_onto-IsKeyed :
      (items : List A) (m : Dict String A) → IsKeyed m → IsKeyed (index_onto K m items)
  unfolding index_onto
  index_onto-IsKeyed [] m h = h
  index_onto-IsKeyed (a ∷ items) m h =
      index_onto-IsKeyed items (insert (K.key a) a m) (insert-IsKeyed a m h)

  module _ (L : IsReadBy K R) where
    pub lookup-put_creates :
        (k : String) (current l m : Dict String A)
        → NodupKeys l
        → IsKeyed l
        → lookup k (put_all R (creates_of K current l) m) ≡ elim (lookup k current) [
          | none ↦ elim (lookup k l) [ none ↦ lookup k m | some d ↦ some d ]
          | some _ ↦ lookup k m
        ]
    unfolding put_all put creates_of lookup
    lookup-put_creates k current [] m u h = ground arith
    lookup-put_creates k current ((n, d) ∷ l) m u h = ground (
      arith,
      lookup-put_creates k current l m u.1 h.1,
      lookup-put_creates k current l (put R (K.create n d) m) u.1 h.1,
      L.target-create d,
      L.payload-create d,
      h.0,
      lookup-insert k n d m,
    )

    pub lookup-put_updates :
        (k : String) (current l m : Dict String A)
        → NodupKeys l
        → IsKeyed l
        → lookup k (update_all R current (updates_of K current l) m) ≡ elim (lookup k current) [
          | none ↦ lookup k m
          | some c ↦ elim (lookup k l) [
            | none ↦ lookup k m
            | some d ↦ if K.equal c d then lookup k m else some (R.sent c d)
          ]
        ]
    unfolding update_all finds put updates_of lookup
    lookup-put_updates k current [] m u h = ground arith
    lookup-put_updates k current ((n, d) ∷ l) m u h = elim (Option-cases (lookup n current)) [
      | inl e ↦ ground (arith, lookup-put_updates k current l m u.1 h.1)
      | inr (c, e) ↦ ground (
        arith,
        lookup-put_updates k current l m u.1 h.1,
        lookup-put_updates k current l (put R (K.update n c d) m) u.1 h.1,
        L.target-update c d,
        L.payload-update c d,
        L.finds-update c d,
        h.0,
        lookup-insert k n (R.sent c d) m,
      )
    ]

    pub lookup-erase_deletes :
        (k : String) (current desired l m : Dict String A)
        → NodupKeys l
        → IsKeyed l
        → ((n : String) (a : A) → lookup n l ≡ some a → lookup n current ≡ some a)
        → lookup k (erase_all R current (deletes_of K desired l) m) ≡ elim (lookup k l) [
          | none ↦ lookup k m
          | some _ ↦ elim (lookup k desired) [ none ↦ none | some _ ↦ lookup k m ]
        ]
    unfolding erase_all finds deletes_of lookup
    lookup-erase_deletes k current desired [] m u h held = ground arith
    lookup-erase_deletes k current desired ((n, a) ∷ l) m u h held =
        let rest : (n' : String) (b : A) → lookup n' l ≡ some b → lookup n' current ≡ some b =
          λ n' b e. held n' b (ground (arith, u.0)) in
        ground (
          arith,
          lookup-erase_deletes k current desired l m u.1 h.1 rest,
          lookup-erase_deletes k current desired l (erase (R.target (K.delete n a)) m) u.1 h.1 rest,
          L.target-delete a,
          L.finds-delete a,
          held n a (ground arith),
          h.0,
          lookup-erase k n m,
        )

module _ {A : Type 0} (K : Keyed A) (P : A → Type 0) where
  -- What holds of all items holds of every value of their map.
  lookup-index_onto-All :
      (items : List A) (m : Dict String A)
      → ((k : String) (d : A) → lookup k m ≡ some d → P d)
      → All P items
      → (k : String) (d : A) → lookup k (index_onto K m items) ≡ some d
      → P d
  unfolding index_onto
  lookup-index_onto-All [] m h all = h
  lookup-index_onto-All (a ∷ items) m h all =
      lookup-index_onto-All items (insert (K.key a) a m)
        (λ k d e. elim (Bool-cases (k == K.key a)) [
          | inl q ↦ subst P (ground (arith, lookup-insert k (K.key a) a m)) all.0
          | inr q ↦ h k d (ground (arith, lookup-insert k (K.key a) a m))
        ])
        all.1

  pub lookup-index-All :
      (items : List A)
      → All P items
      → (k : String) (d : A) → lookup k (index K items) ≡ some d
      → P d
  lookup-index-All items all =
      lookup-index_onto-All items [] (λ k d e. absurd (ground (arith, lookup-nil {V = A} k))) all
