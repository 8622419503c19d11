-- ===== src/Controller/Generic/Reports.antt =====
-- What a reconciliation of an object that is there to stay writes into its status.
use nebularr_operator.Common.{
  String, ◌≡◌, ◌⊎◌, refl, ap, ◌∙◌, inl, inr, Option-cases, Result-cases, Option, none, some,
}
use nebularr_operator.Ir.{Ir, ConnectionIr}
use nebularr_operator.Api.{ReportedHealth}
use nebularr_operator.Common.Dict.{Dict}
use nebularr_operator.Adapters.Interface.{Adapter}
use nebularr_operator.Adapters.Registry.{returned, get}
use nebularr_operator.Controller.Status.{
  IsSetter, condition_status, condition_type_ready, condition_true, condition_false,
}
use nebularr_operator.Controller.Reconcile.{reconcile_config, not_registered}
use nebularr_operator.Controller.Reconcile.Laws.{IsReported, reconcile-IsReported, status-set_cond}
use nebularr_operator.Controller.Generic.{
  ArrConfigObject, GenericArrReconciler, Outcome, no_requeue, after, api_key_of,
}
use nebularr_operator.Controller.Generic.Delete.{connection_of}
use nebularr_operator.Controller.Generic.Health.{check_and_report_health}
use nebularr_operator.Controller.Generic.Normal.{
  error_requeue_interval, requeue_interval, not_ready_config, fail, fail_with, enter_health,
  write_status, report, reconcile_compiled, reconcile_resolved, reconcile_normal, resolve_secrets,
}
use nebularr_operator.Controller.Generic.Returns.{OnReturn, Run-cases}

module _ {S : Type 0} (r : GenericArrReconciler S) where
  abbrev ready_of : ArrConfigObject → Option String
  ready_of config = condition_status condition_type_ready config.status

  -- What is returned after the status of an object that is ready was written, or not.
  abbrev pub written : ArrConfigObject → Option String → Outcome
  written config none = (after (requeue_interval r config), none)
  written config (some m) = (no_requeue, some m)

  -- The last that was done is to write the status. It says not Ready, and an error is returned; or it says so
  -- because the service's kind has no adapter, and the object is queued again after the interval for errors; or
  -- it says Ready, and the outcome is that of the write.
  abbrev pub IsExplained : ArrConfigObject → Outcome × ArrConfigObject × S → Type 0
  IsExplained config (outcome, config', s') =
      (s : S) × (s' ≡ (r.update_status config' s).1)
      × (((ready_of config' ≡ some condition_false)
            × ((m : String) × (outcome ≡ (after error_requeue_interval, some m))))
          ⊎ ((ready_of config' ≡ some condition_false)
              × (get config.app_type r.registry ≡ none)
              × (outcome ≡ (after error_requeue_interval, none)))
          ⊎ ((ready_of config' ≡ some condition_true)
              × (outcome ≡ written config (r.update_status config' s).0)))

  fail-IsExplained :
      (config config' : ArrConfigObject) (m : String) (s : S)
      → ready_of config' ≡ some condition_false
      → IsExplained config (fail r config' (some m) s)
  unfolding fail
  fail-IsExplained config config' m s h = (s, refl, inl (h, (m, refl)))

  enter_health-kept :
      (health : Option ReportedHealth) (config : ArrConfigObject)
      → ((enter_health r health config).reconciliation ≡ config.reconciliation)
        × ((enter_health r health config).status ≡ config.status)
  unfolding enter_health
  enter_health-kept none config = (refl, refl)
  enter_health-kept (some health) config = (refl, refl)

  module _ (setter : IsSetter r.set_status_condition) where
    not_ready_config-status :
        (reason message : String) (config : ArrConfigObject)
        → ready_of (not_ready_config r reason message config) ≡ some condition_false
    not_ready_config-status reason message config =
        status-set_cond r.set_status_condition setter r.now r.registry config.app_type
          (connection_of config.connection "") config.generation condition_type_ready
          condition_false reason message config.status

    -- The object `config'` is `config` with another status and health.
    write_status-IsExplained :
        (config config' : ArrConfigObject) (s : S)
        → config'.reconciliation ≡ config.reconciliation
        → ready_of config' ≡ some condition_true
        → IsExplained config (write_status r config' s)
    unfolding write_status
    write_status-IsExplained config config' s same h =
        elim (Option-cases (r.update_status config' s).0) [
          | inl e ↦ (s, refl, inr (inr (h, rw (e, same) refl)))
          | inr (m, e) ↦ (s, refl, inr (inr (h, rw e refl)))
        ]

    report-IsExplained :
        (config config' : ArrConfigObject) (conn : ConnectionIr) (s : S)
        → config'.reconciliation ≡ config.reconciliation
        → ready_of config' ≡ some condition_true
        → IsExplained config (report r config' conn s)
    unfolding report
    report-IsExplained config config' conn s same h =
        let (kept, status) =
          enter_health-kept (check_and_report_health r conn config' s).0 config' in
        write_status-IsExplained config _ _ (kept ∙ same)
          (ap (condition_status condition_type_ready) status ∙ h)

    reconcile_compiled-IsExplained :
        (config : ArrConfigObject) (conn : ConnectionIr) (desired : Ir) (s : S)
        → OnReturn (IsExplained config) (reconcile_compiled r config conn desired s)
    unfolding reconcile_compiled
    reconcile_compiled-IsExplained config conn desired s =
        let reported =
          reconcile-IsReported r.set_status_condition setter r.now r.registry config.app_type conn
            desired config.status config.generation s in
        elim (Run-cases
          (reconcile_config r.set_status_condition r.now r.registry config.app_type conn desired
            config.status config.generation s).0) [
              | inl e ↦ rw (e, reconcile_compiled) tt
              | inr (((result, some m), status), e) ↦
                  let (ready, _, _) : IsReported r.now desired config.status
                      (returned ((result, some m), status)) =
                    rw e at reported in
                  rw (e, reconcile_compiled) (fail-IsExplained config _ m _ ready)
              | inr (((result, none), status), e) ↦
                  let (_, _, ready, _, _, _, _) : IsReported r.now desired config.status
                      (returned ((result, none), status)) =
                    rw e at reported in
                  rw (e, reconcile_compiled) (report-IsExplained config _ conn _ refl ready)
            ]

    reconcile_resolved-IsExplained :
        (config : ArrConfigObject) (secrets : Dict String String) (adapter : Adapter S) (s : S)
        → OnReturn (IsExplained config) (reconcile_resolved r config secrets adapter s)
    unfolding reconcile_resolved fail_with
    reconcile_resolved-IsExplained config secrets adapter s =
        let conn = connection_of config.connection (api_key_of secrets) in
        elim (Result-cases (adapter.discover conn s).0) [
          | inr (m, e) ↦
              rw (e, reconcile_resolved)
                (fail-IsExplained config _ m _ (not_ready_config-status "DiscoveryFailed" m config))
          | inl (caps, e) ↦
              rw (e, reconcile_resolved)
                (elim (Result-cases (r.compile_config config secrets caps)) [
                  | inr (m, f) ↦
                      rw (f, reconcile_resolved)
                        (fail-IsExplained config _ m _
                          (not_ready_config-status "CompilationFailed" m config))
                  | inl (desired, f) ↦
                      rw (f, reconcile_resolved)
                        (reconcile_compiled-IsExplained config conn desired
                          (adapter.discover conn s).1)
                ])
        ]

    -- A reconciliation that returns has written the status last. Either the status says not Ready, and the
    -- reconciliation returns an error, or returns none because no adapter is registered for the app, and the
    -- object is queued again after the interval for errors; or the status says Ready, and the object is queued
    -- again after its own interval if the write of the status succeeded, and the error of the write is returned
    -- otherwise.
    pub reconcile_normal-IsExplained :
        (config : ArrConfigObject) (s : S)
        → OnReturn (IsExplained config) (reconcile_normal r config s)
    unfolding reconcile_normal fail_with fail
    reconcile_normal-IsExplained config s = elim (Result-cases (resolve_secrets r config)) [
      | inr (m, e) ↦
          rw (e, reconcile_normal)
            (fail-IsExplained config _ m s
              (not_ready_config-status "SecretResolutionFailed" m config))
      | inl (secrets, e) ↦
          rw (e, reconcile_normal)
            (elim (Option-cases (get config.app_type r.registry)) [
              | inl f ↦
                  rw (f, reconcile_normal)
                    (
                      s,
                      refl,
                      inr (
                          inl (
                            not_ready_config-status "AdapterNotFound"
                                (not_registered config.app_type) config,
                            f,
                            refl,
                          )),
                    )
              | inr (adapter, f) ↦
                  rw (f, reconcile_normal) (reconcile_resolved-IsExplained config secrets adapter s)
            ])
    ]
