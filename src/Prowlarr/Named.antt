-- ===== src/Prowlarr/Named.antt =====
-- The applications of a Prowlarr as a map from their names, and what its calls do to it.
use mathlib.Core.Option.{some_inj, none-ne-some}
use mathlib.Core.Path.{subst}
use nebularr_operator.Common.{
  String, ◌≡◌, ◌≢◌, refl, sym, ap, ◌∙◌, arith, ◌==◌, string_eq, int_eq, if◌then◌else◌, ℤ, pos,
  Option, none, some, List, [], ◌∷◌, ◌++◌, All,
}
use nebularr_operator.Prowlarr.{ApplicationResource, find_id}

-- The first application of a name.
unfoldable pub named : String → List ApplicationResource → Option ApplicationResource
named n [] = none
named n (a ∷ apps) = let rest = named n apps in if a.name == n then some a else rest

-- What a PUT and a DELETE do to the applications.
unfoldable pub replace : ApplicationResource → List ApplicationResource → List ApplicationResource
replace a [] = []
replace a (b ∷ apps) = (if b.id == a.id then a else b) ∷ replace a apps

unfoldable pub without : ℤ → List ApplicationResource → List ApplicationResource
without id [] = []
without id (b ∷ apps) = let rest = without id apps in if b.id == id then rest else b ∷ rest

pub named-All :
    (P : ApplicationResource → Type 0) (n : String) (apps : List ApplicationResource)
    (x : ApplicationResource)
    → All P apps
    → named n apps ≡ some x
    → P x × (x.name ≡ n)
unfolding named
named-All P n [] x h e = absurd (none-ne-some x e)
named-All P n (a ∷ apps) x h e = elim (string_eq.dec a.name n) [
  | yes same ↦
      let f : a ≡ x = some_inj.0 (ground (arith, e, same)) in
      (subst P f h.0, ap (λ (y : ApplicationResource). y.name) (sym f) ∙ same)
  | no other ↦ named-All P n apps x h.1 (ground (arith, e, other))
]

pub find_id-named :
    (n : String) (apps : List ApplicationResource)
    → find_id n apps ≡ (elim (named n apps) [ none ↦ pos 0 | some x ↦ x.id ])
unfolding named find_id
find_id-named n [] = refl
find_id-named n (a ∷ apps) = ground (arith, find_id-named n apps)

pub named-append :
    (n : String) (apps : List ApplicationResource) (a : ApplicationResource)
    → named n (apps ++ a ∷ [])
      ≡ (elim (named n apps) [ some x ↦ some x | none ↦ if a.name == n then some a else none ])
unfolding named
named-append n [] a = refl
named-append n (b ∷ apps) a = ground (arith, named-append n apps a)

pub named-replace :
    (n : String) (a x : ApplicationResource) (apps : List ApplicationResource)
    → named n apps ≡ some x
    → x.id ≡ a.id
    → a.name ≡ n
    → named n (replace a apps) ≡ some a
unfolding named replace
named-replace n a x [] found same own = absurd (none-ne-some x found)
named-replace n a x (b ∷ apps) found same own = elim (string_eq.dec b.name n) [
  | yes e ↦
      let f : b ≡ x = some_inj.0 (ground (arith, found, e)) in
      let g : b.id ≡ a.id = ap (λ (y : ApplicationResource). y.id) f ∙ same in
      ground (arith, g, own)
  | no ne ↦ ground (arith, ne, own, named-replace n a x apps (ground (arith, found, ne)) same own)
]

pub named-replace_other :
    (m : String) (a : ApplicationResource) (apps : List ApplicationResource)
    → m ≢ a.name
    → All (λ (b : ApplicationResource). b.id ≡ a.id → b.name ≡ a.name) apps
    → named m (replace a apps) ≡ named m apps
unfolding named replace
named-replace_other m a [] ne h = refl
named-replace_other m a (b ∷ apps) ne h =
    ground (arith, ne, h.0, named-replace_other m a apps ne h.1)

pub named-without :
    (n : String) (id : ℤ) (apps : List ApplicationResource)
    → All (λ (b : ApplicationResource). b.name ≡ n → b.id ≡ id) apps
    → named n (without id apps) ≡ none
unfolding named without
named-without n id [] h = refl
named-without n id (b ∷ apps) h = ground (arith, h.0, named-without n id apps h.1)

pub named-without_other :
    (m n : String) (id : ℤ) (apps : List ApplicationResource)
    → m ≢ n
    → All (λ (b : ApplicationResource). b.id ≡ id → b.name ≡ n) apps
    → named m (without id apps) ≡ named m apps
unfolding named without
named-without_other m n id [] ne h = refl
named-without_other m n id (b ∷ apps) ne h =
    ground (arith, ne, h.0, named-without_other m n id apps ne h.1)

pub All-map {ℓ κ μ} :
    {A : Type ℓ} {P : A → Type κ} {Q : A → Type μ}
    → ((a : A) → P a → Q a)
    → (xs : List A) → All P xs
    → All Q xs
All-map f [] h = tt
All-map f (x ∷ xs) h = (f x h.0, All-map f xs h.1)
