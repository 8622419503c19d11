-- ===== src/Compiler/Prune/Sift.antt =====
-- The loops of the pruning as filters: what is kept, and what is reported.
use nebularr_operator.Common.{
  String, Bool, true, false, not, if◌then◌else◌, ◌≡◌, refl, ap, sym, List, [], ◌∷◌, Bool-cases, inl,
  inr,
}
use nebularr_operator.Ir.{UnrealizedFeature}
use nebularr_operator.Compiler.Prune.{sift}

-- The items that pass a test, and those that do not, each in their order.
abbrev pub filter {ℓ} : {A : Type ℓ} → (A → Bool) → List A → List A
filter test [] = []
filter test (a ∷ items) = if test a then a ∷ filter test items else filter test items

-- One report for each item, in their order.
abbrev pub report {ℓ} : {A : Type ℓ} → (A → String) → List A → List UnrealizedFeature
report feature [] = []
report feature (a ∷ items) =
    record { feature = feature a; reason = "not supported by service" } ∷ report feature items

module _ {ℓ} {A : Type ℓ} where
  filter_all :
      (test : A → Bool) → ((a : A) → test a ≡ true) → (items : List A) → filter test items ≡ items
  filter_all test h [] = refl
  filter_all test h (a ∷ items) = rw (filter, h a) (ap (λ l. a ∷ l) (filter_all test h items))

  filter_none :
      (test : A → Bool) → ((a : A) → test a ≡ false) → (items : List A) → filter test items ≡ []
  filter_none test h [] = refl
  filter_none test h (a ∷ items) = rw (filter, h a) (filter_none test h items)

  -- If all pass, nothing is taken out.
  pub unpruned :
      (test : A → Bool) (feature : A → String)
      → ((a : A) → test a ≡ true)
      → (items : List A)
      → (items ≡ filter test items) × ([] ≡ report feature (filter (λ a. not (test a)) items))
  unpruned test feature h items = (
    sym (filter_all test h items),
    sym (ap (report feature) (filter_none (λ a. not (test a)) (λ a. ap not (h a)) items)),
  )

  module _ (test test' : A → Bool) (feature : A → String) (same : (a : A) → test a ≡ test' a) where
    pub sift-filter :
        (items : List A)
        → sift test feature items
          ≡ (filter test' items, report feature (filter (λ a. not (test' a)) items))
    unfolding sift
    sift-filter [] = refl
    sift-filter (a ∷ items) = elim (Bool-cases (test' a)) [
      | inl e ↦ rw (sift, same a, sift-filter items, e) refl
      | inr e ↦ rw (sift, same a, sift-filter items, e) refl
    ]

  -- A second sifting keeps all.
  pub sift_twice :
      (test : A → Bool) (feature : A → String) (items : List A)
      → let kept = (sift test feature items).0 in sift test feature kept ≡ (kept, [])
  unfolding sift
  sift_twice test feature [] = refl
  sift_twice test feature (a ∷ items) = elim (Bool-cases (test a)) [
    | inl e ↦ rw (sift, e, sift, e, sift_twice test feature items) refl
    | inr e ↦ rw (sift, e) (sift_twice test feature items)
  ]
