-- ===== src/Common/Int.antt =====
-- Go's `int`. The program copies and compares these numbers, adds counters and tests for zero.
-- `negsuc n` is -(n + 1).
use Prim.Native.Nat.{ℕ}
use mathlib.Core.Path.{◌≡◌, ap}
use mathlib.Core.Logic.{◌≢◌, dite}
use native.Mathlib.Decide.{ℕ_discrete}
use nebularr_operator.Common.Equality.{Eq}

pub data ℤ : Type 0 where
  pos : ℕ → ℤ
  negsuc : ℕ → ℤ

pos_injective : {a b : ℕ} → pos a ≡ pos b → a ≡ b
pos_injective p = cc

negsuc_injective : {a b : ℕ} → negsuc a ≡ negsuc b → a ≡ b
negsuc_injective p = cc

pos-ne-negsuc : {a b : ℕ} → pos a ≢ negsuc b
pos-ne-negsuc p = cc

negsuc-ne-pos : {a b : ℕ} → negsuc a ≢ pos b
negsuc-ne-pos p = cc

unfoldable pub ℤ-discrete : Discrete ℤ
unfolding ℕ_discrete pos_injective negsuc_injective pos-ne-negsuc negsuc-ne-pos
ℤ-discrete (pos a) (pos b) =
    dite (ℕ_discrete a b) (λ p. yes (ap pos p)) (λ n. no (λ p. n (pos_injective p)))
ℤ-discrete (pos a) (negsuc b) = no pos-ne-negsuc
ℤ-discrete (negsuc a) (pos b) = no negsuc-ne-pos
ℤ-discrete (negsuc a) (negsuc b) =
    dite (ℕ_discrete a b) (λ p. yes (ap negsuc p)) (λ n. no (λ p. n (negsuc_injective p)))

instance unfoldable pub int_eq : Eq ℤ
unfolding ℤ-discrete
int_eq = record { dec = ℤ-discrete }

instance unfoldable pub nat_eq : Eq ℕ
nat_eq = record { dec = ℕ_discrete }
