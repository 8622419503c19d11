-- ===== src/Controller/Reconcile/Cleanup.antt =====
-- internal/controller/reconciler.go: `CleanupManagedResources` and `ApplyDirectConfig`.
use nebularr_operator.Common.{
  String, Bool, ◌&&◌, if◌then◌else◌, Option, none, some, [], Result, ok, err,
}
use nebularr_operator.Common.Dict.{Dict}
use nebularr_operator.Ir.{Ir, ConnectionIr}
use nebularr_operator.Changes.{ChangeSet, no_result, is_nil, is_empty}
use nebularr_operator.Compiler.Types.{Capabilities}
use nebularr_operator.Adapters.Interface.{Adapter, ApplyReturn}
use nebularr_operator.Adapters.Registry.{Run, returned, panicked, get}
use nebularr_operator.Controller.Reconcile.{not_registered}

-- `&irv1.IR{App: appType}`
abbrev pub empty_ir : String → Ir
empty_ir app_type = record {
  version = "";
  generated_at = 0;
  source_hash = "";
  app = app_type;
  connection = none;
  quality = none;
  download_clients = [];
  remote_path_mappings = [];
  indexers = none;
  naming = none;
  root_folders = [];
  import_lists = [];
  notifications = [];
  custom_formats = [];
  delay_profiles = [];
  release_profiles = [];
  metadata_profiles = [];
  media_management = none;
  authentication = none;
  prowlarr = none;
  unrealized = [];
}

-- The error of the discovery is ignored: its capabilities are then nil.
abbrev pub caps_or_nil : Result Capabilities → Option Capabilities
caps_or_nil (ok caps) = some caps
caps_or_nil (err e) = none

-- The log line reads the result where there is no error.
abbrev pub after_cleanup : ApplyReturn → Run (Option String)
after_cleanup (r, some e) = returned (some e)
after_cleanup (none, none) = panicked
after_cleanup (some _, none) = returned none

module _ {S : Type 0} (registry : Dict String (Adapter S)) (app_type : String)
    (conn : ConnectionIr) where
  unfoldable pub cleanup_changes :
      Adapter S → Result (Option ChangeSet) → S → Run (Option String) × S
  cleanup_changes adapter (err e) s = (returned (some e), s)
  cleanup_changes adapter (ok none) s = (panicked, s)
  cleanup_changes adapter (ok (some changes)) s =
      let (outcome, s') = adapter.apply conn changes s in
      if is_empty changes then (returned none, s) else (after_cleanup outcome, s')

  unfoldable pub cleanup_state : Adapter S → Result (Option Ir) → S → Run (Option String) × S
  unfolding cleanup_changes
  cleanup_state adapter (err e) s = (returned (some e), s)
  cleanup_state adapter (ok none) s = (returned none, s)
  cleanup_state adapter (ok (some current)) s =
      let (caps, s') = adapter.discover conn s in
      cleanup_changes adapter (adapter.diff (some current) (empty_ir app_type) (caps_or_nil caps))
        s'

  unfoldable pub cleanup_managed_resources : S → Run (Option String) × S
  unfolding cleanup_state get
  cleanup_managed_resources s = elim (get app_type registry) [
    | none ↦ (returned (some (not_registered app_type)), s)
    | some adapter ↦
        let (current, s') = adapter.current_state conn s in cleanup_state adapter current s'
  ]

  -- `hasDirectApplyWork` is false.
  abbrev has_no_work : Ir → Bool
  has_no_work ir =
      is_nil ir.import_lists
      && (elim ir.media_management [ none ↦ Bool.true | some _ ↦ Bool.false ])
      && (elim ir.authentication [ none ↦ Bool.true | some _ ↦ Bool.false ])

  unfoldable pub apply_direct_config : Ir → S → ApplyReturn × S
  unfolding get
  apply_direct_config desired s = elim (get app_type registry) [
    | none ↦ ((none, some (not_registered app_type)), s)
    | some adapter ↦ elim adapter.apply_direct [
      | none ↦ ((some no_result, none), s)
      | some direct ↦
          let done = direct conn desired s in
          if has_no_work desired then ((some no_result, none), s) else done
    ]
  ]
