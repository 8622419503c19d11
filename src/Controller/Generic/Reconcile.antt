-- ===== src/Controller/Generic/Reconcile.antt =====
-- internal/controller/generic_arr_reconciler.go: one reconciliation of an object.
use nebularr_operator.Common.{ℕ, String, Bool, true, false, if◌then◌else◌, pos, Option, none, some}
use nebularr_operator.Adapters.Registry.{Run, returned, panicked}
use nebularr_operator.Controller.Generic.{
  ArrConfigObject, GenericArrReconciler, Outcome, no_requeue,
}
use nebularr_operator.Controller.Generic.Delete.{reconcile_delete}
use nebularr_operator.Controller.Generic.Normal.{reconcile_normal}

-- `spec != nil && spec.Suspend`
abbrev pub is_suspended : ArrConfigObject → Bool
is_suspended config = elim config.reconciliation [ none ↦ false | some spec ↦ spec.suspend ]

-- What the Kubernetes client answers to a `Get` of an object, wrapped.
pub data Fetched : Type 0 where
  found : ArrConfigObject → Fetched
  not_found : Fetched
  failed : String → Fetched

module _ {S : Type 0} (r : GenericArrReconciler S) where
  -- `AddFinalizer` and `Update`.
  unfoldable pub add_and_update : ArrConfigObject → S → Outcome × ArrConfigObject × S
  add_and_update config s =
      let config' = record config {
        finalizers = r.add_finalizer config.finalizer_name config.finalizers;
      } in
      let (e, s') = r.update config' s in
      (
        elim e [
          | some m ↦ (no_requeue, some m)
          | none ↦ (record { requeue = true; requeue_after = pos 0 }, none)
        ],
        config',
        s',
      )

  -- An object that is not suspended, by its deletion timestamp.
  unfoldable pub reconcile_active :
      Option ℕ → ArrConfigObject → S → Run (Outcome × ArrConfigObject × S)
  unfolding reconcile_delete add_and_update reconcile_normal
  reconcile_active (some _) config s = reconcile_delete r config config.finalizer_name s
  reconcile_active none config s =
      let added = returned (add_and_update config s) in
      let normal = reconcile_normal r config s in
      if r.contains_finalizer config.finalizer_name config.finalizers then normal else added

  unfoldable pub reconcile : ArrConfigObject → S → Run (Outcome × ArrConfigObject × S)
  unfolding reconcile_active
  reconcile config s =
      let active = reconcile_active config.deletion_timestamp config s in
      if is_suspended config then returned ((no_requeue, none), config, s) else active

  -- `Get` and `Reconcile`; an object that is not there is ignored. The object is returned as it is then.
  unfoldable pub fetch_and_reconcile :
      (String → String → S → Fetched)
      → String
      → String
      → S
      → Run (Outcome × Option ArrConfigObject × S)
  unfolding reconcile
  fetch_and_reconcile get namespace name s = elim (get namespace name s) [
    | not_found ↦ returned ((no_requeue, none), none, s)
    | failed e ↦ returned ((no_requeue, some e), none, s)
    | found config ↦ elim (reconcile config s) [
      | panicked ↦ panicked
      | returned (outcome, config', s') ↦ returned (outcome, some config', s')
    ]
  ]
