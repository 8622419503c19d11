-- ===== src/Common/Fallible.antt =====
-- What a fallible Go function returns, `(value, nil)` or `(nil, err)`; an error is its message.
use Prim.Native.Nat.{ℕ, zero, suc, ◌+◌, ◌/◌, ◌%◌}
use Prim.Native.String.{String, ◌++◌ as ◌<>◌}
use mathlib.Core.List.{List, [], ◌∷◌}
use mathlib.Core.Bool.{Bool, true, false}
use mathlib.Core.Path.{◌≡◌, refl}
use mathlib.Core.Logic.{◌≢◌, ◌⊎◌, inl, inr}
use nebularr_operator.Common.Equality.{if◌then◌else◌}
use nebularr_operator.Common.Int.{ℤ, pos, negsuc}

pub data Result {ℓ} (A : Type ℓ) : Type ℓ where
  ok : A → Result A
  err : String → Result A

pub Result-cases {ℓ} :
    {A : Type ℓ} (r : Result A) → ((a : A) × (r ≡ ok a)) ⊎ ((e : String) × (r ≡ err e))
Result-cases (ok a) = inl (a, refl)
Result-cases (err e) = inr (e, refl)

pub err-ne-ok {ℓ} : {A : Type ℓ} (m : String) (a : A) → err m ≢ ok a
err-ne-ok m a e = cc

pub ok_inj {ℓ} : {A : Type ℓ} (a b : A) → ok a ≡ ok b → a ≡ b
ok_inj a b e = cc

-- `%d`, a digit at a time; a number has fewer digits than it is large, so that `n + 1` rounds do.
at : List String → ℕ → String
at [] i = ""
at (x ∷ xs) zero = x
at (x ∷ xs) (suc i) = at xs i

digit : ℕ → String
unfolding at
digit = at ("0" ∷ "1" ∷ "2" ∷ "3" ∷ "4" ∷ "5" ∷ "6" ∷ "7" ∷ "8" ∷ "9" ∷ [])

is_zero : ℕ → Bool
is_zero zero = true
is_zero (suc n) = false

digits : ℕ → ℕ → String
unfolding digit is_zero
digits zero n = ""
digits (suc fuel) n =
    let rest = digits fuel (n / 10) in (if is_zero (n / 10) then "" else rest) <> digit (n % 10)

unfoldable pub decimal : ℕ → String
unfolding digits digit
decimal n = digits (n + 1) n

unfoldable pub decimal_int : ℤ → String
unfolding decimal
decimal_int (pos n) = decimal n
decimal_int (negsuc n) = "-" <> decimal (n + 1)
