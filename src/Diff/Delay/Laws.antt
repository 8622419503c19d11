-- ===== src/Diff/Delay/Laws.antt =====
-- The diff of delay profiles never deletes the default profile, and settles.
use mathlib.Core.List.{Memᴰ}
use mathlib.Core.Logic.{if_pos, if_neg}
use nebularr_operator.Common.{
  true, ◌≡◌, ◌≢◌, refl, ◌∙◌, ap, arith, ℤ, pos, none, some, List, [], ◌∷◌, ◌⊎◌, inl, inr, string_eq,
  bool_eq, int_eq, nat_eq, All, Option-cases, All-append,
}
use nebularr_operator.Common.Dict.{Dict, lookup}
use nebularr_operator.Ir.{DelayProfileIr}
use nebularr_operator.Changes.{Change, ChangeSet, empty_changes}
use nebularr_operator.Diff.Delay.{
  all_in, delay_profiles_equal, by_order, upsert_profile, upsert_profiles, prune_profile,
  prune_profiles, diff_delay_profiles,
}

all_in_cons : (t : ℤ) (set tags : List ℤ) → all_in set tags ≡ true → all_in (t ∷ set) tags ≡ true
unfolding all_in
all_in_cons t set [] h = refl
all_in_cons t set (x ∷ tags) h = ground (arith, all_in_cons t set tags)

all_in_refl : (tags : List ℤ) → all_in tags tags ≡ true
unfolding all_in
all_in_refl [] = refl
all_in_refl (t ∷ tags) = ground (arith, all_in_cons t tags tags (all_in_refl tags))

delay_profiles_equal_refl : (p : DelayProfileIr) → delay_profiles_equal p p ≡ true
unfolding delay_profiles_equal nat_eq
delay_profiles_equal_refl p = ground (arith, all_in_refl p.tags)

upsert_profiles-deletes :
    (current : Dict ℤ DelayProfileIr) (desired : List DelayProfileIr) (cs : ChangeSet)
    → (upsert_profiles current desired cs).deletes ≡ cs.deletes
unfolding upsert_profiles
upsert_profiles-deletes current [] cs = refl
upsert_profiles-deletes current (dp ∷ desired) cs =
    upsert_profiles-deletes current desired (upsert_profile current dp cs) ∙ ground arith

-- The change deletes a current profile by its id. That profile is not the default one, and no
-- profile of its order is wanted.
abbrev pub IsSurplus : List DelayProfileIr → Dict ℤ DelayProfileIr → Change → Type 0
IsSurplus current desired c =
    (p : DelayProfileIr) × Memᴰ p current
    × (c.id ≡ some p.id)
    × (p.order ≢ pos 1)
    × (lookup p.order desired ≡ none)

prune_profile-IsSurplus :
    (current : List DelayProfileIr) (desired : Dict ℤ DelayProfileIr) (cp : DelayProfileIr)
    (cs : ChangeSet)
    → Memᴰ cp current
    → All (IsSurplus current desired) cs.deletes
    → All (IsSurplus current desired) (prune_profile desired cp cs).deletes
prune_profile-IsSurplus current desired cp cs m h = elim (int_eq.dec cp.order (pos 1)) [
  | yes e ↦ rw (if_pos _ e) h
  | no n ↦ rw (if_neg _ n) (elim (Option-cases (lookup cp.order desired)) [
    | inl e ↦ rw e (All-append (IsSurplus current desired) cs.deletes _ h ((cp, m, refl, n, e), tt))
    | inr (d, e) ↦ rw e h
  ])
]

prune_profile_settled :
    (desired : Dict ℤ DelayProfileIr) (c : DelayProfileIr) (cs : ChangeSet)
    → (c.order ≡ pos 1) ⊎ (lookup c.order desired ≢ none)
    → prune_profile desired c cs ≡ cs
prune_profile_settled desired c cs h = ground arith

prune_profiles-IsSurplus :
    (current : List DelayProfileIr) (desired : Dict ℤ DelayProfileIr) (l : List DelayProfileIr)
    (cs : ChangeSet)
    → ((p : DelayProfileIr) → Memᴰ p l → Memᴰ p current)
    → All (IsSurplus current desired) cs.deletes
    → All (IsSurplus current desired) (prune_profiles desired l cs).deletes
unfolding prune_profiles
prune_profiles-IsSurplus current desired [] cs sub h = h
prune_profiles-IsSurplus current desired (cp ∷ l) cs sub h =
    prune_profiles-IsSurplus current desired l (prune_profile desired cp cs)
      (λ p m. sub p (Memᴰ.tail m))
      (prune_profile-IsSurplus current desired cp cs (sub cp (Memᴰ.head refl)) h)

-- From an empty change set, every delete that `DiffDelayProfiles` writes has the id of a current
-- profile whose order is not 1 (that of the default profile) and is the order of no desired profile.
pub profiles-IsSurplus :
    (current desired : List DelayProfileIr)
    → All
        (IsSurplus current (by_order desired))
        (diff_delay_profiles current desired empty_changes).deletes
unfolding diff_delay_profiles
profiles-IsSurplus current desired =
    prune_profiles-IsSurplus current (by_order desired) current _ (λ p m. m)
      (rw upsert_profiles-deletes tt)

upsert_profile_settled :
    (current : Dict ℤ DelayProfileIr) (d : DelayProfileIr) (cs : ChangeSet) (c : DelayProfileIr)
    → lookup d.order current ≡ some c
    → delay_profiles_equal c d ≡ true
    → upsert_profile current d cs ≡ cs
upsert_profile_settled current d cs c found same = ground arith

upsert_profiles_settled :
    (current : Dict ℤ DelayProfileIr) (desired : List DelayProfileIr) (cs : ChangeSet)
    → All
        (λ (d : DelayProfileIr).
          (c : DelayProfileIr) × (lookup d.order current ≡ some c)
          × (delay_profiles_equal c d ≡ true))
        desired
    → upsert_profiles current desired cs ≡ cs
unfolding upsert_profiles
upsert_profiles_settled current [] cs h = refl
upsert_profiles_settled current (d ∷ desired) cs ((c, found, same), h) =
    ap (upsert_profiles current desired) (upsert_profile_settled current d cs c found same)
    ∙ upsert_profiles_settled current desired cs h

prune_profiles_settled :
    (desired : Dict ℤ DelayProfileIr) (current : List DelayProfileIr) (cs : ChangeSet)
    → All (λ (c : DelayProfileIr). (c.order ≡ pos 1) ⊎ (lookup c.order desired ≢ none)) current
    → prune_profiles desired current cs ≡ cs
unfolding prune_profiles
prune_profiles_settled desired [] cs h = refl
prune_profiles_settled desired (c ∷ current) cs h =
    ap (prune_profiles desired current) (prune_profile_settled desired c cs h.0)
    ∙ prune_profiles_settled desired current cs h.1

-- If each desired profile equals the current one of its order, and each current profile is the
-- default one or has the order of a desired one, the diff adds no change.
pub profiles_stable :
    (current desired : List DelayProfileIr) (changes : ChangeSet)
    → All
        (λ (d : DelayProfileIr).
          (c : DelayProfileIr) × (lookup d.order (by_order current) ≡ some c)
          × (delay_profiles_equal c d ≡ true))
        desired
    → All
        (λ (c : DelayProfileIr). (c.order ≡ pos 1) ⊎ (lookup c.order (by_order desired) ≢ none))
        current
    → diff_delay_profiles current desired changes ≡ changes
unfolding diff_delay_profiles
profiles_stable current desired changes h k =
    prune_profiles_settled (by_order desired) current _ k
    ∙ upsert_profiles_settled (by_order current) desired changes h
