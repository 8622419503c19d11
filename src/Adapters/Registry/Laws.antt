-- ===== src/Adapters/Registry/Laws.antt =====
-- The registry as a map from the apps to their adapters.
use mathlib.Core.Path.{subst}
use mathlib.Core.Option.{some-ne-none}
use nebularr_operator.Common.{
  String, ◌≡◌, ◌≢◌, ◌↔◌, refl, ◌∙◌, sym, ap, arith, string_eq, ◌==◌, if◌then◌else◌, Option, none,
  some, [], ◌∷◌, map, length, length-map, Option-cases, inl, inr, contains,
}
use nebularr_operator.Common.Dict.{
  Dict, lookup, insert, erase, NodupKeys, lookup-insert, lookup-erase, insert-NodupKeys,
  erase-NodupKeys, lookup-nil,
}
use nebularr_operator.Common.Range.{RangeOrder, lookup-visit, length-visit}
use nebularr_operator.Presets.Expander.Laws.{is_some}
use nebularr_operator.Adapters.Registry.{
  Run, returned, panicked, register, register_or_replace, get, must_get, unregister, list, count,
  clear,
}

returned_injective : {A : Type 0} {a b : A} → returned a ≡ returned b → a ≡ b
returned_injective e = cc

panicked-ne-returned : {A : Type 0} {a : A} → panicked ≢ returned a
panicked-ne-returned e = cc

module _ {A : Type 0} (supported_app : A → String) where
  -- The operations of a program on the registry.
  pub data Op : Type 0 where
    registering : A → Op
    replacing : A → Op
    unregistering : String → Op
    clearing : Op

  abbrev pub run : Op → Dict String A → Run (Dict String A)
  run (registering a) r = register supported_app a r
  run (replacing a) r = returned (register_or_replace supported_app a r)
  run (unregistering app) r = returned (unregister app r).1
  run clearing r = returned (clear r)

  -- The adapter that an app should have after an operation that did not panic.
  abbrev pub expected : Op → Dict String A → String → Option A
  expected (registering a) r app = if app == supported_app a then some a else get app r
  expected (replacing a) r app = if app == supported_app a then some a else get app r
  expected (unregistering gone) r app = if app == gone then none else get app r
  expected clearing r app = none

  -- A registry holds each adapter under the app that it supports, and has one entry for an app.
  pub record IsRegistry (r : Dict String A) : Type 0 where
    pub nodup : NodupKeys r
    pub keyed : (app : String) (a : A) → get app r ≡ some a → app ≡ supported_app a

  insert-IsRegistry :
      (a : A) (r : Dict String A) → IsRegistry r → IsRegistry (insert (supported_app a) a r)
  unfolding get
  insert-IsRegistry a r h = record {
    nodup = insert-NodupKeys (supported_app a) a r h.nodup;
    keyed = λ app b e. ground (arith, e, lookup-insert app (supported_app a) a r, h.keyed app b);
  }

  erase-IsRegistry : (app : String) (r : Dict String A) → IsRegistry r → IsRegistry (erase app r)
  unfolding get
  erase-IsRegistry app r h = record {
    nodup = erase-NodupKeys app r h.nodup;
    keyed = λ x b e. ground (arith, e, lookup-erase x app r, h.keyed x b);
  }

  empty-IsRegistry : IsRegistry []
  unfolding get
  empty-IsRegistry = record {
    nodup = tt;
    keyed = λ app a e. ground (arith, e, lookup-nil {V = A} app);
  }

  get-run :
      (op : Op) (r r' : Dict String A) (app : String)
      → run op r ≡ returned r'
      → get app r' ≡ expected op r app
  unfolding get register register_or_replace unregister clear
  get-run (registering a) r r' app e = elim (Option-cases (lookup (supported_app a) r)) [
    | inl free ↦
        ap (λ (m : Dict String A). lookup app m)
          (sym (returned_injective (rw (free, register) at e)))
        ∙ lookup-insert app (supported_app a) a r
    | inr (b, taken) ↦ absurd (panicked-ne-returned (rw (taken, register) at e))
  ]
  get-run (replacing a) r r' app e =
      ap (λ (m : Dict String A). lookup app m) (sym (returned_injective e))
      ∙ lookup-insert app (supported_app a) a r
  get-run (unregistering gone) r r' app e = elim (Option-cases (lookup gone r)) [
    | inl missing ↦
        ap (λ (m : Dict String A). lookup app m)
          (sym (returned_injective (rw (missing, unregister) at e)))
        ∙ ground (arith, missing)
    | inr (b, found) ↦
        ap (λ (m : Dict String A). lookup app m)
          (sym (returned_injective (rw (found, unregister) at e)))
        ∙ lookup-erase app gone r
  ]
  get-run clearing r r' app e =
      ap (λ (m : Dict String A). lookup app m) (sym (returned_injective e)) ∙ lookup-nil app

  run-IsRegistry :
      (op : Op) (r r' : Dict String A) → IsRegistry r → run op r ≡ returned r' → IsRegistry r'
  unfolding register register_or_replace unregister clear
  run-IsRegistry (registering a) r r' h e = elim (Option-cases (lookup (supported_app a) r)) [
    | inl free ↦
        subst IsRegistry (returned_injective (rw (free, register) at e)) (insert-IsRegistry a r h)
    | inr (b, taken) ↦ absurd (panicked-ne-returned (rw (taken, register) at e))
  ]
  run-IsRegistry (replacing a) r r' h e =
      subst IsRegistry (returned_injective e) (insert-IsRegistry a r h)
  run-IsRegistry (unregistering gone) r r' h e = elim (Option-cases (lookup gone r)) [
    | inl missing ↦ subst IsRegistry (returned_injective (rw (missing, unregister) at e)) h
    | inr (b, found) ↦
        subst IsRegistry (returned_injective (rw (found, unregister) at e))
          (erase-IsRegistry gone r h)
  ]
  run-IsRegistry clearing r r' h e = subst IsRegistry (returned_injective e) empty-IsRegistry

  -- An operation on the registry that does not panic leaves a registry in which each app has the
  -- adapter that it had, but for the one that the operation is about: it has the adapter that was
  -- registered, or none after it was unregistered; after a clear no app has one. Each adapter stays
  -- under the app that it supports, and each app has one entry.
  pub IsRegistry-steps :
      (op : Op) (r r' : Dict String A)
      → IsRegistry r
      → run op r ≡ returned r'
      → IsRegistry r' × ((app : String) → get app r' ≡ expected op r app)
  IsRegistry-steps op r r' h e = (run-IsRegistry op r r' h e, λ app. get-run op r r' app e)

  -- `Register` panics exactly if the app is taken, and `MustGet` exactly if it is not.
  pub registry_panics :
      (a : A) (r : Dict String A)
      → ((register supported_app a r ≡ panicked) ↔ (get (supported_app a) r ≢ none))
        × ((must_get (supported_app a) r ≡ panicked) ↔ (get (supported_app a) r ≡ none))
  unfolding register must_get get
  registry_panics a r = elim (Option-cases (lookup (supported_app a) r)) [
    | inl free ↦
        rw (free, register, must_get)
          (
            (λ e. absurd (panicked-ne-returned (sym e)), λ n. absurd (n refl)),
            (λ _. refl, λ _. refl),
          )
    | inr (b, taken) ↦
        rw (taken, register, must_get)
          (
            (λ _ e. some-ne-none b e, λ _. refl),
            (λ e. absurd (panicked-ne-returned (sym e)), λ e. absurd (some-ne-none b e)),
          )
  ]

contains-keys :
    {A : Type 0} (r : Dict String A) (app : String)
    → contains (map (λ (p : String × A). p.0) r) app ≡ is_some (lookup app r)
unfolding lookup
contains-keys [] app = refl
contains-keys (p ∷ r) app = ground (arith, contains-keys r app)

-- `List` has an app exactly if it has an adapter, and as many apps as `Count` says, in whatever order
-- Go visits the map.
pub registry_listed :
    {A : Type 0} (supported_app : A → String) (order : RangeOrder (String × A)) (r : Dict String A)
    (app : String)
    → IsRegistry supported_app r
    → (contains (list order r) app ≡ is_some (get app r)) × (length (list order r) ≡ count r)
unfolding list get count
registry_listed {A} supported_app order r app h = (
  contains-keys (order.visit r) app ∙ ap is_some (lookup-visit order r app h.nodup),
  length-map (λ (p : String × A). p.0) (order.visit r) ∙ length-visit order r,
)
