-- ===== src/Controller/Generic/Returns.antt =====
-- What holds of what a run returns, and the return of the cleanup before a deletion.
use nebularr_operator.Common.{
  String, ◌≡◌, ◌≢◌, ◌⊎◌, refl, inl, inr, Bool-cases, Option-cases, Result-cases, Option, none, some,
  Result, ok, err,
}
use nebularr_operator.Ir.{Ir, ConnectionIr}
use nebularr_operator.Common.Dict.{Dict}
use nebularr_operator.Changes.{ChangeSet, is_empty}
use nebularr_operator.Adapters.Interface.{Adapter, ApplyReturn}
use nebularr_operator.Adapters.Registry.{Run, returned, panicked, get}
use nebularr_operator.Controller.Secrets.{resolve_connection_secrets}
use nebularr_operator.Controller.Reconcile.Safety.{HasResults, IsReturned}
use nebularr_operator.Controller.Reconcile.Cleanup.{
  empty_ir, caps_or_nil, after_cleanup, cleanup_changes, cleanup_state, cleanup_managed_resources,
}
use nebularr_operator.Controller.Generic.{ArrConfigObject, GenericArrReconciler, api_key_of}
use nebularr_operator.Controller.Generic.Delete.{connection_of, cleanup_config}
use nebularr_operator.Controller.Generic.Normal.{}
use nebularr_operator.Controller.Generic.Reconcile.{}

-- What a run returns, if it returns.
abbrev pub OnReturn : {A : Type 0} → (A → Type 0) → Run A → Type 0
OnReturn P r = elim r [ panicked ↦ Unit | returned a ↦ P a ]

pub OnReturn-map :
    {A : Type 0} {P Q : A → Type 0} (run : Run A)
    → ((a : A) → P a → Q a)
    → OnReturn P run
    → OnReturn Q run
OnReturn-map panicked f h = tt
OnReturn-map (returned a) f h = f a h

pub Run-cases : {A : Type 0} (run : Run A) → (run ≡ panicked) ⊎ ((a : A) × (run ≡ returned a))
Run-cases panicked = inl refl
Run-cases (returned a) = inr (a, refl)

after_cleanup-IsReturned :
    (outcome : ApplyReturn) → outcome ≢ (none, none) → IsReturned (after_cleanup outcome)
after_cleanup-IsReturned (result, some e) h = (_, refl)
after_cleanup-IsReturned (none, none) h = absurd (h refl)
after_cleanup-IsReturned (some result, none) h = (_, refl)

module _ {S : Type 0} (registry : Dict String (Adapter S)) (app_type : String)
    (conn : ConnectionIr) where
  cleanup_changes-IsReturned :
      (a : Adapter S) (r : Result (Option ChangeSet)) (s : S)
      → HasResults a
      → r ≢ ok none
      → IsReturned (cleanup_changes registry app_type conn a r s).0
  unfolding cleanup_changes
  cleanup_changes-IsReturned a (err e) s h given = (_, refl)
  cleanup_changes-IsReturned a (ok none) s h given = absurd (given refl)
  cleanup_changes-IsReturned a (ok (some changes)) s h given =
      elim (Bool-cases (is_empty changes)) [
        | inl e ↦ rw e (_, refl)
        | inr e ↦
            rw (e, IsReturned)
              (after_cleanup-IsReturned (a.apply conn changes s).0 (h.apply conn changes s))
      ]

  cleanup_state-IsReturned :
      (a : Adapter S) (r : Result (Option Ir)) (s : S)
      → HasResults a
      → IsReturned (cleanup_state registry app_type conn a r s).0
  unfolding cleanup_state
  cleanup_state-IsReturned a (err e) s h = (_, refl)
  cleanup_state-IsReturned a (ok none) s h = (_, refl)
  cleanup_state-IsReturned a (ok (some current)) s h =
      cleanup_changes-IsReturned a _ _ h
        (h.diff (some current) (empty_ir app_type) (caps_or_nil (a.discover conn s).0))

  cleanup-IsReturned :
      (s : S)
      → ((a : Adapter S) → get app_type registry ≡ some a → HasResults a)
      → IsReturned (cleanup_managed_resources registry app_type conn s).0
  unfolding cleanup_managed_resources
  cleanup-IsReturned s h = elim (Option-cases (get app_type registry)) [
    | inl e ↦ rw (e, cleanup_managed_resources) (_, refl)
    | inr (a, e) ↦ rw (e, cleanup_managed_resources) (cleanup_state-IsReturned a _ _ (h a e))
  ]

module _ {S : Type 0} (r : GenericArrReconciler S) where
  pub cleanup_config-IsReturned :
      (config : ArrConfigObject) (s : S)
      → ((a : Adapter S) → get config.app_type r.registry ≡ some a → HasResults a)
      → IsReturned (cleanup_config r config s).0
  unfolding cleanup_config
  cleanup_config-IsReturned config s h =
      elim (Result-cases
        (resolve_connection_secrets r.get_secret config.namespace config.connection)) [
          | inr (m, e) ↦ rw (e, cleanup_config) (_, refl)
          | inl (secrets, e) ↦
              rw (e, cleanup_config)
                (cleanup-IsReturned r.registry config.app_type
                  (connection_of config.connection (api_key_of secrets)) s h)
        ]
