-- ===== src/Controller/Generic/Delete.antt =====
-- internal/controller/generic_arr_reconciler.go: the deletion of an object.
use nebularr_operator.Common.{String, ◌<>◌, Bool, Option, none, some, ok, err}
use nebularr_operator.Ir.{ConnectionIr}
use nebularr_operator.Api.{ConnectionSpec}
use nebularr_operator.Adapters.Registry.{Run, returned, panicked}
use nebularr_operator.Controller.Secrets.{resolve_connection_secrets}
use nebularr_operator.Controller.Reconcile.Cleanup.{cleanup_managed_resources}
use nebularr_operator.Controller.Generic.{
  ArrConfigObject, GenericArrReconciler, Outcome, no_requeue, api_key_of,
}
use nebularr_operator.Controller.Generic.Registration.{handle_prowlarr_unregistration}

-- `connIR`
abbrev pub connection_of : ConnectionSpec → String → ConnectionIr
connection_of spec api_key = record {
  url = spec.url;
  api_key = api_key;
  insecure_skip_verify = Bool.false;
}

-- The name under which Prowlarr knows the service.
abbrev pub prowlarr_name_of : ArrConfigObject → String
prowlarr_name_of config = "nebularr-" <> config.app_type <> "-" <> config.name

module _ {S : Type 0} (r : GenericArrReconciler S) where
  unfoldable pub unregister_config : ArrConfigObject → S → S
  unfolding handle_prowlarr_unregistration
  unregister_config config s = elim config.indexers [
    | none ↦ s
    | some indexers ↦ elim indexers.prowlarr_ref [
      | none ↦ s
      | some ref ↦
          (handle_prowlarr_unregistration r config.namespace ref.name (prowlarr_name_of config) s).1
    ]
  ]

  -- The cleanup, if the secrets of the connection are there; its error is logged.
  unfoldable pub cleanup_config : ArrConfigObject → S → Run (Option String) × S
  unfolding resolve_connection_secrets cleanup_managed_resources
  cleanup_config config s =
      elim (resolve_connection_secrets r.get_secret config.namespace config.connection) [
        | err e ↦ (returned none, s)
        | ok secrets ↦
            cleanup_managed_resources r.registry config.app_type
              (connection_of config.connection (api_key_of secrets)) s
      ]

  -- `RemoveFinalizer` and `Update`.
  unfoldable pub remove_and_update : ArrConfigObject → String → S → Outcome × ArrConfigObject × S
  remove_and_update config finalizer s =
      let config' = record config { finalizers = r.remove_finalizer finalizer config.finalizers } in
      let (e, s') = r.update config' s in ((no_requeue, e), config', s')

  -- With the object as it is then.
  unfoldable pub reconcile_delete :
      ArrConfigObject → String → S → Run (Outcome × ArrConfigObject × S)
  unfolding unregister_config cleanup_config remove_and_update
  reconcile_delete config finalizer s =
      let (cleaned, s') = cleanup_config config (unregister_config config s) in
      elim cleaned [
        | panicked ↦ panicked
        | returned e ↦ returned (remove_and_update config finalizer s')
      ]
