-- ===== src/Controller/Generic/Normal.antt =====
-- internal/controller/generic_arr_reconciler.go: the reconciliation of an object that is there to stay.
use nebularr_operator.Common.{String, if◌then◌else◌, ℤ, pos, Option, none, some, Result, ok, err}
use nebularr_operator.Common.Dict.{Dict}
use nebularr_operator.Ir.{Ir, ConnectionIr}
use nebularr_operator.Api.{ReportedHealth}
use nebularr_operator.Adapters.Interface.{Adapter}
use nebularr_operator.Adapters.Registry.{Run, returned, panicked, get}
use nebularr_operator.Controller.Status.{
  ConfigStatus, set_condition, condition_type_ready, condition_false,
}
use nebularr_operator.Controller.Secrets.{
  Resolved, resolve_connection_secrets, resolve_download_client_secrets, resolve_indexer_secrets,
  resolve_import_list_secrets, resolve_authentication_secrets,
}
use nebularr_operator.Controller.Reconcile.{not_registered, reconcile_config}
use nebularr_operator.Controller.Reconcile.Cleanup.{apply_direct_config}
use nebularr_operator.Controller.Generic.{
  ArrConfigObject, GenericArrReconciler, Outcome, no_requeue, after, api_key_of,
}
use nebularr_operator.Controller.Generic.Registration.{handle_prowlarr_registration}
use nebularr_operator.Controller.Generic.Delete.{connection_of, prowlarr_name_of}
use nebularr_operator.Controller.Generic.Health.{check_and_report_health}

abbrev pub error_requeue_interval : ℤ
error_requeue_interval = pos 30000000000

abbrev pub default_requeue_interval : ℤ
default_requeue_interval = pos 300000000000

-- The result of a resolution that may have failed.
abbrev pub and_then :
    Resolved → (Dict String String → Result (Dict String String)) → Result (Dict String String)
and_then (some e, _) next = err e
and_then (none, resolved) next = next resolved

module _ {S : Type 0} (r : GenericArrReconciler S) where
  -- The five resolutions; each error is handled in one way.
  unfoldable pub resolve_secrets : ArrConfigObject → Result (Dict String String)
  unfolding resolve_connection_secrets resolve_download_client_secrets resolve_indexer_secrets
      resolve_import_list_secrets resolve_authentication_secrets
  resolve_secrets config =
      elim (resolve_connection_secrets r.get_secret config.namespace config.connection) [
        | err e ↦ err e
        | ok connection ↦
            and_then
              (resolve_download_client_secrets r.get_secret config.namespace config.download_clients
                connection)
              (λ clients.
                and_then
                  (resolve_indexer_secrets r.get_secret config.namespace config.indexers clients)
                  (λ indexers.
                    and_then
                      (resolve_import_list_secrets r.get_secret config.namespace r.order
                        config.import_lists indexers)
                      (λ lists.
                        and_then
                          (resolve_authentication_secrets r.get_secret config.namespace
                            config.authentication lists)
                          ok)))
      ]

  abbrev pub with_status : ConfigStatus → ArrConfigObject → ArrConfigObject
  with_status status config = record config { status = status }

  abbrev pub not_ready_config : String → String → ArrConfigObject → ArrConfigObject
  not_ready_config reason message config =
      with_status
        (set_condition r.set_status_condition r.now config.status config.generation
          condition_type_ready condition_false reason message)
        config

  -- The status is written; an error of the write is logged.
  unfoldable pub fail : ArrConfigObject → Option String → S → Outcome × ArrConfigObject × S
  fail config e s = ((after error_requeue_interval, e), config, (r.update_status config s).1)

  unfoldable pub fail_with : String → String → ArrConfigObject → S → Outcome × ArrConfigObject × S
  unfolding fail set_condition
  fail_with reason message config s = fail (not_ready_config reason message config) (some message) s

  -- `DefaultRequeueInterval`, unless the specification has an interval.
  abbrev pub requeue_interval : ArrConfigObject → ℤ
  requeue_interval config = elim config.reconciliation [
    | none ↦ default_requeue_interval
    | some spec ↦ elim spec.interval [ none ↦ default_requeue_interval | some interval ↦ interval ]
  ]

  unfoldable pub register_config : ArrConfigObject → String → S → S
  unfolding handle_prowlarr_registration
  register_config config api_key s = elim config.indexers [
    | none ↦ s
    | some indexers ↦ elim indexers.prowlarr_ref [
      | none ↦ s
      | some ref ↦
          let registered =
            handle_prowlarr_registration r config.namespace
              (record {
                prowlarr_ref = some ref;
                app_type = config.app_type;
                app_name = prowlarr_name_of config;
                app_url = config.connection.url;
                app_api_key = api_key;
              })
              s in
          if config.should_register_with_prowlarr then registered.1 else s
    ]
  ]

  -- The health is kept where none was found.
  unfoldable pub enter_health : Option ReportedHealth → ArrConfigObject → ArrConfigObject
  enter_health none config = config
  enter_health (some health) config = record config { health = some health }

  -- The result by whether the status could be written.
  unfoldable pub write_status : ArrConfigObject → S → Outcome × ArrConfigObject × S
  write_status config s =
      let (e, s') = r.update_status config s in
      (
        elim e [ some m ↦ (no_requeue, some m) | none ↦ (after (requeue_interval config), none) ],
        config,
        s',
      )

  unfoldable pub report : ArrConfigObject → ConnectionIr → S → Outcome × ArrConfigObject × S
  unfolding check_and_report_health enter_health write_status
  report config conn s =
      let (health, s') = check_and_report_health r conn config s in
      write_status (enter_health health config) s'

  -- From `ReconcileConfig` on.
  unfoldable pub reconcile_compiled :
      ArrConfigObject → ConnectionIr → Ir → S → Run (Outcome × ArrConfigObject × S)
  unfolding reconcile_config fail apply_direct_config register_config report
  reconcile_compiled config conn desired s =
      let (run, s₁) =
        reconcile_config r.set_status_condition r.now r.registry config.app_type conn desired
          config.status config.generation s in
      elim run [
        | panicked ↦ panicked
        | returned ((result, some e), status) ↦
            returned (fail (with_status status config) (some e) s₁)
        | returned ((result, none), status) ↦
            let (direct, s₂) = apply_direct_config r.registry config.app_type conn desired s₁ in
            returned
              (report (with_status status config) conn (register_config config conn.api_key s₂))
      ]

  -- From the discovery on.
  unfoldable pub reconcile_resolved :
      ArrConfigObject → Dict String String → Adapter S → S → Run (Outcome × ArrConfigObject × S)
  unfolding fail_with reconcile_compiled
  reconcile_resolved config secrets adapter s =
      let conn = connection_of config.connection (api_key_of secrets) in
      let (discovered, s') = adapter.discover conn s in
      elim discovered [
        | err e ↦ returned (fail_with "DiscoveryFailed" e config s')
        | ok caps ↦ elim (r.compile_config config secrets caps) [
          | err e ↦ returned (fail_with "CompilationFailed" e config s')
          | ok desired ↦ reconcile_compiled config conn desired s'
        ]
      ]

  -- A missing adapter is no error for the queue.
  unfoldable pub reconcile_normal : ArrConfigObject → S → Run (Outcome × ArrConfigObject × S)
  unfolding resolve_secrets fail_with fail set_condition get reconcile_resolved
  reconcile_normal config s = elim (resolve_secrets config) [
    | err e ↦ returned (fail_with "SecretResolutionFailed" e config s)
    | ok secrets ↦ elim (get config.app_type r.registry) [
      | none ↦
          returned (
            fail (not_ready_config "AdapterNotFound" (not_registered config.app_type) config) none
              s)
      | some adapter ↦ reconcile_resolved config secrets adapter s
    ]
  ]
