-- ===== src/Tests/Controlled.antt =====
-- Reconciliations of an object of Radarr.
use nebularr_operator.Common.{
  ℕ, suc, String, string_eq, ◌==◌, if◌then◌else◌, Bool, true, false, ◌≡◌, ◌≢◌, refl, arith, pos,
  none, some, List, [], ◌∷◌, ok, err,
}
use nebularr_operator.Compiler.Compile.{compile_parts}
use nebularr_operator.Adapters.Registry.{returned}
use nebularr_operator.Controller.Generic.{
  ArrConfigObject, GenericArrReconciler, IsFinalizerUtil, no_requeue,
}
use nebularr_operator.Controller.Generic.Delete.{reconcile_delete}
use nebularr_operator.Controller.Generic.Normal.{reconcile_normal}
use nebularr_operator.Controller.Generic.Returns.{OnReturn}
use nebularr_operator.Controller.Generic.Laws.{deletion_completes}
use nebularr_operator.Controller.Generic.Reports.{IsExplained, reconcile_normal-IsExplained}
use nebularr_operator.Tests.Data.{input, in_order}
use nebularr_operator.Tests.Reconciled.{set, set-IsSetter, status, registry, adapter-HasResults}

contains : String → List String → Bool
contains f [] = false
contains f (g ∷ l) = let rest = contains f l in if g == f then true else rest

remove : String → List String → List String
remove f [] = []
remove f (g ∷ l) = let rest = remove f l in if g == f then rest else g ∷ rest

contains-remove : (f : String) (l : List String) → contains f (remove f l) ≡ false
unfolding contains remove
contains-remove f [] = refl
contains-remove f (g ∷ l) = ground (arith, contains-remove f l)

contains-remove_other :
    (f g : String) (l : List String) → g ≢ f → contains g (remove f l) ≡ contains g l
unfolding contains remove
contains-remove_other f g [] ne = refl
contains-remove_other f g (h ∷ l) ne = ground (arith, ne, contains-remove_other f g l ne)

contains-cons : (f : String) (l : List String) → contains f (f ∷ l) ≡ true
unfolding contains
contains-cons f l = ground arith

-- A cluster without secrets that counts the writes, at the Radarr that counts the calls of `Apply`.
abbrev reconciler : GenericArrReconciler ℕ
reconciler = record {
  get_secret = λ namespace name. err "not found";
  get_prowlarr_config = λ namespace name s. err "not found";
  update = λ config s. (none, suc s);
  update_status = λ config s. (none, suc s);
  event = λ config type reason message s. s;
  contains_finalizer = contains;
  add_finalizer = λ f l. f ∷ l;
  remove_finalizer = remove;
  set_status_condition = set;
  now = 1700;
  order = in_order;
  registry = registry;
  prowlarr = record {
    get = λ conn path s. (err "refused", s);
    post = λ conn path a s. (some "refused", s);
    put = λ conn path a s. (some "refused", s);
    delete = λ conn path s. (some "refused", s);
  };
  compile_config = λ config secrets caps. ok (compile_parts 0 input);
}

reconciler-IsFinalizerUtil : IsFinalizerUtil reconciler
reconciler-IsFinalizerUtil = record {
  adds = contains-cons;
  removes = contains-remove;
  keeps = contains-remove_other;
}

abbrev radarr_config : ArrConfigObject
radarr_config = record {
  name = "main";
  namespace = "media";
  generation = pos 1;
  deletion_timestamp = none;
  finalizers = "foregroundDeletion" ∷ "radarrconfig.arr.rinzler.cloud/finalizer" ∷ [];
  connection = record {
    url = "http://radarr:7878";
    api_key_secret_ref = none;
    config_path = "";
    insecure_skip_verify = false;
    timeout = none;
  };
  reconciliation = none;
  download_clients = [];
  indexers = none;
  import_lists = [];
  authentication = none;
  status = status;
  health = none;
  app_type = "radarr";
  finalizer_name = "radarrconfig.arr.rinzler.cloud/finalizer";
  should_register_with_prowlarr = true;
}

deletion_completes_example :
    (config' : ArrConfigObject) × (s' : ℕ) × (reconcile_delete reconciler radarr_config
        "radarrconfig.arr.rinzler.cloud/finalizer" 0
      ≡ returned (
        (no_requeue, (reconciler.update config' s').0),
        config',
        (reconciler.update config' s').1,
      ))
    × (contains "radarrconfig.arr.rinzler.cloud/finalizer" config'.finalizers ≡ false)
    × ((other : String)
        → other ≢ "radarrconfig.arr.rinzler.cloud/finalizer"
        → contains other config'.finalizers ≡ contains other radarr_config.finalizers)
deletion_completes_example =
    deletion_completes reconciler radarr_config "radarrconfig.arr.rinzler.cloud/finalizer" 0
      reconciler-IsFinalizerUtil adapter-HasResults

reconcile_normal-IsExplained_example :
    OnReturn (IsExplained reconciler radarr_config) (reconcile_normal reconciler radarr_config 0)
reconcile_normal-IsExplained_example =
    reconcile_normal-IsExplained reconciler set-IsSetter radarr_config 0
