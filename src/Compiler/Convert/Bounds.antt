-- ===== src/Compiler/Convert/Bounds.antt =====
-- The numbers of the categories that the conversions give.
use mathlib.Core.Option.{some_inj, none-ne-some}
use mathlib.Core.Path.{subst}
use nebularr_operator.Common.{
  Option, ap, Option-cases, ◌&&◌, zero, suc, String, Bool, true, false, Bool-cases, ◌≡◌, refl, sym,
  inl, inr, arith, ℤ, pos, negsuc, none, some, List, [], ◌∷◌, All, string_eq, if◌then◌else◌, ◌==◌,
}
use nebularr_operator.Common.Text.{leb, to_lower, same_char, atoi, signed, unsigned, Digits, two_63}
use nebularr_operator.Common.Dict.{Dict, lookup}
use nebularr_operator.Prowlarr.{is_positive, default_sync_categories}
use nebularr_operator.Changes.{is_nil}
use nebularr_operator.Compiler.Convert.Names.{
  categories, category_or_zero, map_category_name, convert_category, convert_categories_by,
  convert_categories,
}
use nebularr_operator.Compiler.Convert.Prowlarr.{
  prowlarr_categories, map_prowlarr_category_name, convert_prowlarr_categories,
}

-- `math.MinInt64 <= id && id <= math.MaxInt64`
abbrev pub fits : ℤ → Bool
fits (pos n) = leb (suc n) two_63
fits (negsuc n) = leb (suc n) two_63

signed-fits : (negative : Bool) (d : Digits) → fits (signed negative d).0 ≡ true
signed-fits true (Digits.number zero) = refl
signed-fits true (Digits.number (suc n)) = ground arith
signed-fits false (Digits.number n) = ground arith
signed-fits true Digits.range_error = refl
signed-fits false Digits.range_error = refl
signed-fits negative Digits.syntax_error = refl

either-fits :
    (b : Bool) (x y : ℤ × Bool)
    → fits x.0 ≡ true
    → fits y.0 ≡ true
    → fits (if b then x else y).0 ≡ true
either-fits true x y hx hy = hx
either-fits false x y hx hy = hy

atoi-fits : (s : String) → fits (atoi s).0 ≡ true
unfolding atoi
atoi-fits String.[] = refl
atoi-fits (String.◌∷◌ c s) =
    let plain = signed false (unsigned (String.◌∷◌ c s)) in
    let unmarked = if same_char c "+" then signed false (unsigned s) else plain in
    either-fits (same_char c "-") (signed true (unsigned s)) unmarked
      (signed-fits true (unsigned s))
      (either-fits (same_char c "+") (signed false (unsigned s)) plain
        (signed-fits false (unsigned s)) (signed-fits false (unsigned (String.◌∷◌ c s))))

-- Of the values of a table.
lookup-All {ℓ κ} :
    {V : Type ℓ} (P : V → Type κ) (k : String) (table : Dict String V) (v : V)
    → All (λ (e : String × V). P e.1) table
    → lookup k table ≡ some v
    → P v
unfolding lookup
lookup-All P k [] v h e = absurd (none-ne-some v e)
lookup-All P k ((j, w) ∷ table) v h e = elim (Bool-cases (k == j)) [
  | inl same ↦ subst P (some_inj.0 (rw same at e)) h.0
  | inr other ↦ lookup-All P k table v h.1 (rw other at e)
]

abbrev pub Fits : ℤ → Type 0
Fits id = fits id ≡ true

abbrev pub AllFit : List ℤ → Type 0
AllFit = All Fits

-- What a text says of a category: the number that it is, or that of a known name.
abbrev pub category_of : Dict String ℤ → String → Option ℤ
category_of table cat = if (atoi cat).1 then lookup (to_lower cat) table else some (atoi cat).0

-- The numbers of the texts that say one, in their order.
abbrev pub known_ids : Dict String ℤ → List String → List ℤ
known_ids table [] = []
known_ids table (cat ∷ cats) = elim (category_of table cat) [
  | none ↦ known_ids table cats
  | some id ↦ id ∷ known_ids table cats
]

abbrev IsCategory : ℤ → Type 0
IsCategory id = (is_positive id ≡ true) × Fits id

module _ (table : Dict String ℤ) (good : All (λ (e : String × ℤ). IsCategory e.1) table) where
  convert_category-category_of :
      (cat : String)
      → convert_category (category_or_zero table) cat
        ≡ elim (category_of table cat) [ none ↦ [] | some id ↦ id ∷ [] ]
  unfolding convert_category category_or_zero
  convert_category-category_of cat = elim (Bool-cases (atoi cat).1) [
    | inr parsed ↦ rw (convert_category, parsed) refl
    | inl failed ↦ elim (Option-cases (lookup (to_lower cat) table)) [
      | inl e ↦
          let value : category_or_zero table cat ≡ pos 0 = rw (category_or_zero, e) refl in
          rw (convert_category, failed, e, value) refl
      | inr (id, e) ↦
          let positive = (lookup-All IsCategory (to_lower cat) table id good e).0 in
          let value : category_or_zero table cat ≡ id = rw (category_or_zero, e) refl in
          rw (convert_category, failed, e, value, positive) refl
    ]
  ]

  convert_categories_by-known_ids :
      (cats : List String)
      → convert_categories_by (category_or_zero table) cats ≡ known_ids table cats
  unfolding convert_categories_by
  convert_categories_by-known_ids [] = refl
  convert_categories_by-known_ids (cat ∷ cats) = elim (Option-cases (category_of table cat)) [
    | inl e ↦
        rw (convert_categories_by, convert_category-category_of cat, known_ids, e)
          (convert_categories_by-known_ids cats)
    | inr (id, e) ↦
        rw (convert_categories_by, convert_category-category_of cat, known_ids, e)
          (ap (λ (l : List ℤ). id ∷ l) (convert_categories_by-known_ids cats))
  ]

  category_of-Fits : (cat : String) (id : ℤ) → category_of table cat ≡ some id → Fits id
  category_of-Fits cat id e = elim (Bool-cases (atoi cat).1) [
    | inl failed ↦ (lookup-All IsCategory (to_lower cat) table id good (rw failed at e)).1
    | inr parsed ↦ subst Fits (some_inj.0 (rw parsed at e)) (atoi-fits cat)
  ]

  known_ids-AllFit : (cats : List String) → AllFit (known_ids table cats)
  known_ids-AllFit [] = tt
  known_ids-AllFit (cat ∷ cats) = elim (Option-cases (category_of table cat)) [
    | inl e ↦ rw (known_ids, e) (known_ids-AllFit cats)
    | inr (id, e) ↦ rw (known_ids, e) (category_of-Fits cat id e, known_ids-AllFit cats)
  ]

all_of {ℓ} : {A : Type ℓ} → (A → Bool) → List A → Bool
all_of test [] = true
all_of test (x ∷ xs) = test x && all_of test xs

all_of-All {ℓ} :
    {A : Type ℓ} (test : A → Bool) (xs : List A)
    → all_of test xs ≡ true
    → All (λ (a : A). test a ≡ true) xs
unfolding all_of
all_of-All test [] h = tt
all_of-All test (x ∷ xs) h = (ground (arith, h), all_of-All test xs (ground (arith, h)))

All-IsCategory :
    (table : Dict String ℤ)
    → All (λ (e : String × ℤ). is_positive e.1 ≡ true) table
    → All (λ (e : String × ℤ). Fits e.1) table
    → All (λ (e : String × ℤ). IsCategory e.1) table
All-IsCategory [] h k = tt
All-IsCategory (x ∷ table) h k = ((h.0, k.0), All-IsCategory table h.1 k.1)

are-IsCategory :
    (table : Dict String ℤ)
    → all_of (λ (e : String × ℤ). is_positive e.1) table ≡ true
    → all_of (λ (e : String × ℤ). fits e.1) table ≡ true
    → All (λ (e : String × ℤ). IsCategory e.1) table
are-IsCategory table h k =
    All-IsCategory table (all_of-All (λ (e : String × ℤ). is_positive e.1) table h)
      (all_of-All (λ (e : String × ℤ). fits e.1) table k)

categories-IsCategory : All (λ (e : String × ℤ). IsCategory e.1) categories
unfolding all_of is_positive
categories-IsCategory = are-IsCategory categories refl refl

prowlarr_categories-IsCategory : All (λ (e : String × ℤ). IsCategory e.1) prowlarr_categories
unfolding all_of is_positive
prowlarr_categories-IsCategory = are-IsCategory prowlarr_categories refl refl

-- What an app type has by default.
abbrev pub defaults_of : String → List ℤ
defaults_of app_type = elim (lookup app_type default_sync_categories) [
  | none ↦ []
  | some defaults ↦ defaults
]

default-AllFit : (app_type : String) → AllFit (defaults_of app_type)
unfolding all_of
default-AllFit app_type = elim (Option-cases (lookup app_type default_sync_categories)) [
  | inl e ↦ rw (defaults_of, e) tt
  | inr (defaults, e) ↦
      rw (defaults_of, e)
        (all_of-All fits defaults (
          lookup-All (λ (ids : List ℤ). all_of fits ids ≡ true) app_type default_sync_categories
            defaults
            (all_of-All (λ (e : String × List ℤ). all_of fits e.1) default_sync_categories refl) e))
]

-- The conversions of categories give, in the order of the texts, the number of each text that is a number, and
-- that of each other text that is a known name in small letters; every other text is left out. The Prowlarr
-- conversion of no texts gives the categories that the type of the app has by default. All numbers that are
-- given are in the range of Go's `int`.
pub categories_known :
    (cats : List String) (app_type : String)
    → (convert_categories cats ≡ known_ids categories cats)
      × (convert_prowlarr_categories cats app_type
          ≡ (if is_nil cats then defaults_of app_type else known_ids prowlarr_categories cats))
      × AllFit (convert_categories cats)
      × AllFit (convert_prowlarr_categories cats app_type)
unfolding convert_categories map_category_name convert_prowlarr_categories
    map_prowlarr_category_name
categories_known [] app_type = (refl, refl, tt, default-AllFit app_type)
categories_known (cat ∷ cats) app_type =
    let own = convert_categories_by-known_ids categories categories-IsCategory (cat ∷ cats) in
    let other =
      convert_categories_by-known_ids prowlarr_categories prowlarr_categories-IsCategory
        (cat ∷ cats) in
    (
      own,
      other,
      subst AllFit (sym own) (known_ids-AllFit categories categories-IsCategory (cat ∷ cats)),
      subst AllFit (sym other)
          (known_ids-AllFit prowlarr_categories prowlarr_categories-IsCategory (cat ∷ cats)),
    )
