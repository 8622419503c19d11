-- ===== src/Common/Range.antt =====
-- `for k, v := range m` visits each entry of a map once, in an order that Go leaves open.
-- Each loop over a map takes such an order as a parameter.
use Prim.Native.Nat.{suc}
use mathlib.Core.Path.{◌≡◌, refl, ◌∙◌, ap, sym, subst}
use mathlib.Core.List.{List, ◌∷◌, Permᴰ}
use native.Mathlib.Omega.{arith}
use nebularr_operator.Common.Equality.{Eq}
use nebularr_operator.Common.Lists.{All, length}
use nebularr_operator.Common.Dict.{Dict, lookup, NodupKeys}

pub record RangeOrder {ℓ} (A : Type ℓ) : Type ℓ where
  pub visit : List A → List A
  pub visit-perm : (entries : List A) → Permᴰ (visit entries) entries

module _ {ℓ κ} {K : Type ℓ} {V : Type κ} ⦃e : Eq K⦄ where
  -- Permuted entries with one entry for a key are the same map.
  Permᴰ-lookup :
      {d d' : Dict K V}
      → Permᴰ d d'
      → NodupKeys d'
      → NodupKeys d × ((k : K) → lookup k d ≡ lookup k d')
  unfolding lookup
  Permᴰ-lookup Permᴰ.nil u = (tt, λ k. refl)
  Permᴰ-lookup (Permᴰ.cons {a = x} {b = y} {l₁ = d} {l₂ = d'} p q) u =
      let (u', same) = Permᴰ-lookup q u.1 in
      (
        (ground (arith, same y.0, ap (λ (z : K × V). z.0) p), u'),
        λ k. ground (arith, same k, ap (λ (z : K × V). z.0) p, ap (λ (z : K × V). z.1) p),
      )
  Permᴰ-lookup (Permᴰ.swap {a = x} {b = y} {a' = y'} {b' = x'} {l = d} p q) u = (
    subst (λ (z : K × V). NodupKeys (x ∷ z ∷ d)) (sym q)
        (subst (λ (z : K × V). NodupKeys (z ∷ y' ∷ d)) (sym p) (ground arith)),
    λ k. rw (q, p) (ground arith),
  )
  Permᴰ-lookup (Permᴰ.trans p q) u =
      let (v, same) = Permᴰ-lookup q u in
      let (w, same') = Permᴰ-lookup p v in (w, λ k. same' k ∙ same k)

  pub visit-NodupKeys :
      (o : RangeOrder (K × V)) (d : Dict K V) → NodupKeys d → NodupKeys (o.visit d)
  visit-NodupKeys o d u = (Permᴰ-lookup (o.visit-perm d) u).0

  pub lookup-visit :
      (o : RangeOrder (K × V)) (d : Dict K V) (k : K)
      → NodupKeys d
      → lookup k (o.visit d) ≡ lookup k d
  lookup-visit o d k u = (Permᴰ-lookup (o.visit-perm d) u).1 k

Permᴰ-All {ℓ κ} : {A : Type ℓ} (P : A → Type κ) {l l' : List A} → Permᴰ l l' → All P l' → All P l
Permᴰ-All P Permᴰ.nil h = tt
Permᴰ-All P (Permᴰ.cons p q) h = (subst P (sym p) h.0, Permᴰ-All P q h.1)
Permᴰ-All P (Permᴰ.swap p q) h = (subst P (sym p) h.1.0, (subst P (sym q) h.0, h.1.1))
Permᴰ-All P (Permᴰ.trans p q) h = Permᴰ-All P p (Permᴰ-All P q h)

pub All-visit {ℓ κ} :
    {A : Type ℓ} (P : A → Type κ) (o : RangeOrder A) (l : List A) → All P l → All P (o.visit l)
All-visit P o l h = Permᴰ-All P (o.visit-perm l) h

Permᴰ-length {ℓ} : {A : Type ℓ} {l l' : List A} → Permᴰ l l' → length l ≡ length l'
Permᴰ-length Permᴰ.nil = refl
Permᴰ-length (Permᴰ.cons p q) = ap suc (Permᴰ-length q)
Permᴰ-length (Permᴰ.swap p q) = refl
Permᴰ-length (Permᴰ.trans p q) = Permᴰ-length p ∙ Permᴰ-length q

pub length-visit {ℓ} : {A : Type ℓ} (o : RangeOrder A) (l : List A) → length (o.visit l) ≡ length l
length-visit o l = Permᴰ-length (o.visit-perm l)
