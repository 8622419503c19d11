-- ===== src/Controller/Generic/Laws.antt =====
-- The finalizer of an object: how it is kept, and when it goes.
use nebularr_operator.Common.{
  String, ◌≡◌, ◌≢◌, refl, inl, inr, pos, true, false, Option-cases, Result-cases, Option, none,
  some,
}
use nebularr_operator.Ir.{Ir, ConnectionIr}
use nebularr_operator.Api.{ReportedHealth}
use nebularr_operator.Common.Dict.{Dict}
use nebularr_operator.Adapters.Interface.{Adapter}
use nebularr_operator.Adapters.Registry.{Run, returned, get}
use nebularr_operator.Controller.Reconcile.{reconcile_config}
use nebularr_operator.Controller.Reconcile.Safety.{HasResults}
use nebularr_operator.Controller.Reconcile.Cleanup.{}
use nebularr_operator.Controller.Generic.{
  ArrConfigObject, GenericArrReconciler, IsFinalizerUtil, Outcome, no_requeue, api_key_of,
}
use nebularr_operator.Controller.Generic.Health.{check_and_report_health}
use nebularr_operator.Controller.Generic.Delete.{
  connection_of, unregister_config, cleanup_config, remove_and_update, reconcile_delete,
}
use nebularr_operator.Controller.Generic.Normal.{
  fail, fail_with, enter_health, write_status, report, reconcile_compiled, reconcile_resolved,
  reconcile_normal, resolve_secrets,
}
use nebularr_operator.Controller.Generic.Reconcile.{is_suspended}
use nebularr_operator.Controller.Generic.Returns.{OnReturn, Run-cases, cleanup_config-IsReturned}

module _ {S : Type 0} (r : GenericArrReconciler S) where
  abbrev pub released : String → ArrConfigObject → ArrConfigObject
  released finalizer config = record config {
    finalizers = r.remove_finalizer finalizer config.finalizers;
  }

  pub reconcile_delete-returned :
      (config : ArrConfigObject) (finalizer : String) (s : S)
      → ((a : Adapter S) → get config.app_type r.registry ≡ some a → HasResults a)
      → (s' : S) × (reconcile_delete r config finalizer s
          ≡ returned (
            (no_requeue, (r.update (released finalizer config) s').0),
            released finalizer config,
            (r.update (released finalizer config) s').1,
          ))
  unfolding reconcile_delete remove_and_update
  reconcile_delete-returned config finalizer s h =
      let (e, done) = cleanup_config-IsReturned r config (unregister_config r config s) h in
      ((cleanup_config r config (unregister_config r config s)).1, rw (done, reconcile_delete) refl)

  -- If `Apply` and `Diff` of the adapter of the app never return nil without an error, then the deletion of an
  -- object does not panic. It updates the object without the finalizer and with the other finalizers that it had, and its only
  -- error is that of the update, whatever fails in the unregistration and in the cleanup.
  pub deletion_completes :
      (config : ArrConfigObject) (finalizer : String) (s : S)
      → IsFinalizerUtil r
      → ((a : Adapter S) → get config.app_type r.registry ≡ some a → HasResults a)
      → (config' : ArrConfigObject) × (s' : S) × (reconcile_delete r config finalizer s
          ≡ returned ((no_requeue, (r.update config' s').0), config', (r.update config' s').1))
        × (r.contains_finalizer finalizer config'.finalizers ≡ false)
        × ((other : String)
            → other ≢ finalizer
            → r.contains_finalizer other config'.finalizers
              ≡ r.contains_finalizer other config.finalizers)
  deletion_completes config finalizer s util h =
      let (s', e) = reconcile_delete-returned config finalizer s h in
      (
        released finalizer config,
        s',
        e,
        util.removes finalizer config.finalizers,
        λ other ne. util.keeps finalizer other config.finalizers ne,
      )

  enter_health-finalizers :
      (health : Option ReportedHealth) (config : ArrConfigObject)
      → (enter_health r health config).finalizers ≡ config.finalizers
  unfolding enter_health
  enter_health-finalizers none config = refl
  enter_health-finalizers (some health) config = refl

  report-finalizers :
      (config : ArrConfigObject) (conn : ConnectionIr) (s : S)
      → (report r config conn s).1.finalizers ≡ config.finalizers
  unfolding report write_status
  report-finalizers config conn s =
      enter_health-finalizers (check_and_report_health r conn config s).0 config

  -- A reconciliation changes no finalizers where it does not add one.
  reconcile_compiled-finalizers :
      (config : ArrConfigObject) (conn : ConnectionIr) (desired : Ir) (s : S)
      → OnReturn
          (λ (o : Outcome × ArrConfigObject × S). o.1.finalizers ≡ config.finalizers)
          (reconcile_compiled r config conn desired s)
  unfolding reconcile_compiled fail report
  reconcile_compiled-finalizers config conn desired s =
      elim (Run-cases
        (reconcile_config r.set_status_condition r.now r.registry config.app_type conn desired
          config.status config.generation s).0) [
            | inl e ↦ rw (e, reconcile_compiled) tt
            | inr (((result, some m), status), e) ↦ rw (e, reconcile_compiled) refl
            | inr (((result, none), status), e) ↦
                rw (e, reconcile_compiled) (report-finalizers _ conn _)
          ]

  reconcile_resolved-finalizers :
      (config : ArrConfigObject) (secrets : Dict String String) (adapter : Adapter S) (s : S)
      → OnReturn
          (λ (o : Outcome × ArrConfigObject × S). o.1.finalizers ≡ config.finalizers)
          (reconcile_resolved r config secrets adapter s)
  unfolding reconcile_resolved fail_with fail
  reconcile_resolved-finalizers config secrets adapter s =
      let conn = connection_of config.connection (api_key_of secrets) in
      elim (Result-cases (adapter.discover conn s).0) [
        | inr (m, e) ↦ rw (e, reconcile_resolved) refl
        | inl (caps, e) ↦
            rw (e, reconcile_resolved)
              (elim (Result-cases (r.compile_config config secrets caps)) [
                | inr (m, f) ↦ rw (f, reconcile_resolved) refl
                | inl (desired, f) ↦
                    rw (f, reconcile_resolved)
                      (reconcile_compiled-finalizers config conn desired
                        (adapter.discover conn s).1)
              ])
      ]

  pub reconcile_normal-finalizers :
      (config : ArrConfigObject) (s : S)
      → OnReturn
          (λ (o : Outcome × ArrConfigObject × S). o.1.finalizers ≡ config.finalizers)
          (reconcile_normal r config s)
  unfolding reconcile_normal fail_with fail
  reconcile_normal-finalizers config s = elim (Result-cases (resolve_secrets r config)) [
    | inr (m, e) ↦ rw (e, reconcile_normal) refl
    | inl (secrets, e) ↦
        rw (e, reconcile_normal)
          (elim (Option-cases (get config.app_type r.registry)) [
            | inl f ↦ rw (f, reconcile_normal) refl
            | inr (adapter, f) ↦
                rw (f, reconcile_normal) (reconcile_resolved-finalizers config secrets adapter s)
          ])
  ]

  -- The outcome of the update that adds the finalizer.
  abbrev pub enqueued : Option String → Outcome
  enqueued (some m) = (no_requeue, some m)
  enqueued none = (record { requeue = true; requeue_after = pos 0 }, none)

  -- What a reconciliation does with an object that is not being deleted.
  abbrev pub IsGuarded : ArrConfigObject → S → Run (Outcome × ArrConfigObject × S) → Type 0
  IsGuarded config s run =
      (is_suspended config ≡ true → run ≡ returned ((no_requeue, none), config, s))
      × (is_suspended config ≡ false
          → r.contains_finalizer config.finalizer_name config.finalizers ≡ false
          → (config' : ArrConfigObject) × (config'
              ≡ record config { finalizers = config'.finalizers })
            × (r.contains_finalizer config.finalizer_name config'.finalizers ≡ true)
            × (run ≡ returned (enqueued (r.update config' s).0, config', (r.update config' s).1)))
      × (is_suspended config ≡ false
          → r.contains_finalizer config.finalizer_name config.finalizers ≡ true
          → OnReturn (λ (o : Outcome × ArrConfigObject × S). o.1.finalizers ≡ config.finalizers)
              run)
