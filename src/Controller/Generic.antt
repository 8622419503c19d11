-- ===== src/Controller/Generic.antt =====
-- internal/controller/generic_arr_reconciler.go and config_interfaces.go: the object of a service as the
-- controllers read and write it. The logs are left out.
pub mod Registration
pub mod Health
pub mod Delete
pub mod Normal
pub mod Reconcile
pub mod Returns
pub mod Laws
pub mod Reports
use nebularr_operator.Common.{
  ℕ, String, string_eq, Bool, ◌≡◌, ◌≢◌, ℤ, pos, negsuc, Option, none, some, List, [], Result,
}
use nebularr_operator.Common.Dict.{Dict, lookup}
use nebularr_operator.Common.Range.{RangeOrder}
use nebularr_operator.Ir.{Ir}
use nebularr_operator.Compiler.Types.{Capabilities}
use nebularr_operator.Api.{
  ConnectionSpec, DownloadClientSpec, IndexersSpec, ImportListSpec, AuthenticationSpec,
  ReconciliationSpec, ReportedHealth,
}
use nebularr_operator.Adapters.Interface.{Adapter}
use nebularr_operator.Prowlarr.{ProwlarrApi}
use nebularr_operator.Controller.Status.{Condition, ConfigStatus}

-- What `ArrConfigObject` gives access to.
pub record ArrConfigObject : Type 0 where
  pub name : String
  pub namespace : String
  pub generation : ℤ
  pub deletion_timestamp : Option ℕ
  pub finalizers : List String
  pub connection : ConnectionSpec
  pub reconciliation : Option ReconciliationSpec
  pub download_clients : List DownloadClientSpec
  pub indexers : Option IndexersSpec
  pub import_lists : List ImportListSpec
  pub authentication : Option AuthenticationSpec
  pub status : ConfigStatus
  pub health : Option ReportedHealth
  pub app_type : String
  pub finalizer_name : String
  pub should_register_with_prowlarr : Bool

-- The reconciler with what it calls: the Kubernetes client, which finds the connection of a ProwlarrConfig by
-- namespace and name, the recorder of events, the functions of `controllerutil`, the services, and the
-- compilation for the kind.
pub record GenericArrReconciler (S : Type 0) : Type 0 where
  pub get_secret : String → String → Result (Dict String String)
  pub get_prowlarr_config : String → String → S → Result ConnectionSpec
  pub update : ArrConfigObject → S → Option String × S
  pub update_status : ArrConfigObject → S → Option String × S
  pub event : ArrConfigObject → String → String → String → S → S
  pub contains_finalizer : String → List String → Bool
  pub add_finalizer : String → List String → List String
  pub remove_finalizer : String → List String → List String
  pub set_status_condition : Condition → List Condition → List Condition
  pub now : ℕ
  pub order : RangeOrder (String × String)
  pub registry : Dict String (Adapter S)
  pub prowlarr : ProwlarrApi S
  pub compile_config : ArrConfigObject → Dict String String → Capabilities → Result Ir

-- What is documented of `controllerutil`.
pub record IsFinalizerUtil {S : Type 0} (r : GenericArrReconciler S) : Type 0 where
  pub adds :
      (f : String) (l : List String) → r.contains_finalizer f (r.add_finalizer f l) ≡ Bool.true
  pub removes :
      (f : String) (l : List String) → r.contains_finalizer f (r.remove_finalizer f l) ≡ Bool.false
  pub keeps :
      (f g : String) (l : List String)
      → g ≢ f
      → r.contains_finalizer g (r.remove_finalizer f l) ≡ r.contains_finalizer g l

-- `ctrl.Result` and the error.
pub record ControlResult : Type 0 where
  pub requeue : Bool
  pub requeue_after : ℤ

abbrev pub Outcome : Type 0
Outcome = ControlResult × Option String

abbrev pub no_requeue : ControlResult
no_requeue = record { requeue = Bool.false; requeue_after = pos 0 }

abbrev pub after : ℤ → ControlResult
after interval = record { requeue = Bool.false; requeue_after = interval }

-- `resolvedSecrets["apiKey"]`
abbrev pub api_key_of : Dict String String → String
api_key_of secrets = elim (lookup "apiKey" secrets) [ none ↦ "" | some key ↦ key ]
