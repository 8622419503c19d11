-- ===== src/Adapters/Registry.antt =====
-- internal/adapters/registry.go. The registry is a map under a lock: an operation is one step on it.
pub mod Laws
use nebularr_operator.Common.{
  ℕ, String, Bool, true, false, string_eq, Option, none, some, List, [], map, length,
}
use nebularr_operator.Common.Dict.{Dict, lookup, insert, erase}
use nebularr_operator.Common.Range.{RangeOrder}

-- A call may panic.
pub data Run {ℓ} (A : Type ℓ) : Type ℓ where
  returned : A → Run A
  panicked : Run A

module _ {A : Type 0} (supported_app : A → String) where
  unfoldable pub register : A → Dict String A → Run (Dict String A)
  register a registry = elim (lookup (supported_app a) registry) [
    | some _ ↦ panicked
    | none ↦ returned (insert (supported_app a) a registry)
  ]

  unfoldable pub register_or_replace : A → Dict String A → Dict String A
  register_or_replace a registry = insert (supported_app a) a registry

module _ {A : Type 0} where
  unfoldable pub get : String → Dict String A → Option A
  get app registry = lookup app registry

  unfoldable pub must_get : String → Dict String A → Run A
  unfolding get
  must_get app registry = elim (get app registry) [ none ↦ panicked | some a ↦ returned a ]

  unfoldable pub unregister : String → Dict String A → Bool × Dict String A
  unregister app registry = elim (lookup app registry) [
    | none ↦ (false, registry)
    | some _ ↦ (true, erase app registry)
  ]

  -- In whatever order Go visits the map.
  unfoldable pub list : RangeOrder (String × A) → Dict String A → List String
  list order registry = map (λ (p : String × A). p.0) (order.visit registry)

  unfoldable pub count : Dict String A → ℕ
  count registry = length registry

  unfoldable pub clear : Dict String A → Dict String A
  clear registry = []
