-- ===== src/Controller/Coordinator/Process.antt =====
-- internal/controller/prowlarr_coordinator_controller.go: the work on one object, on all objects, and on the
-- ProwlarrConfig that triggered it.
use nebularr_operator.Common.{
  String, ◌<>◌, string_eq, ◌==◌, not, if◌then◌else◌, true, pos, contains, length, decimal, Option,
  none, some, List, [], ◌∷◌, ◌++◌, ok, err,
}
use nebularr_operator.Changes.{is_nil}
use nebularr_operator.Api.{ProwlarrRef, ProwlarrRegistration}
use nebularr_operator.Api.Kinds.{ProwlarrConfig}
use nebularr_operator.Prowlarr.{ProwlarrConnection, register_app}
use nebularr_operator.Controller.Secrets.{resolve_connection_secrets}
use nebularr_operator.Controller.Generic.{Outcome, no_requeue, after, api_key_of}
use nebularr_operator.Controller.Generic.Normal.{error_requeue_interval, default_requeue_interval}
use nebularr_operator.Controller.Generic.Registration.{auto_register_of}
use nebularr_operator.Controller.Coordinator.{
  AppConfig, found, not_found, failed, Coordinator, push_key, push_model_apps, unregistered,
  clear_registration, pull_name, resolve_app_key, pull_registration, reference_of,
}

-- The error, the registration that is left in the status, and the state of the outside world.
abbrev pub Processed : Type 0 → Type 0
Processed S = Option String × Option ProwlarrRegistration × S

module _ {S : Type 0} (r : Coordinator S) (config : ProwlarrConfig)
    (conn : ProwlarrConnection) where
  -- The registration with a key.
  unfoldable pub register_with_key : String → AppConfig → String → S → Processed S
  unfolding register_app
  register_with_key app_type app key s =
      let (e, s') = register_app r.prowlarr conn (pull_registration config app_type app key) s in
      elim e [
        | some m ↦ (some m, some (unregistered config.name ("Registration failed: " <> m)), s')
        | none ↦ (
          none,
          some (record {
            registered = true;
            prowlarr_name = config.name;
            application_id = none;
            last_sync = some r.now;
            synced_indexers = [];
            message = "Registered as " <> pull_name app_type app.name;
          }),
          s',
        )
      ]

  -- An object that refers to this Prowlarr.
  unfoldable pub process_reference : ProwlarrRef → String → AppConfig → S → Processed S
  unfolding resolve_app_key register_with_key
  process_reference ref app_type app s =
      let key = resolve_app_key r.get_secret app.namespace app_type app.name in
      let registered = register_with_key app_type app key s in
      if contains (push_model_apps config) (push_key app_type app.name)
      then (
        some
            ("conflict: " <> app_type <> "/" <> app.name <> " defined in both Push and Pull model"),
        some (
            unregistered config.name
              "Conflict: app is defined in both ProwlarrConfig.applications[] (Push) and has prowlarrRef (Pull). Remove from one."),
        s,
      )
      else if not (auto_register_of ref)
      then (
        none,
        some (unregistered config.name "Auto-registration disabled (autoRegister: false)"),
        s,
      )
      else if key == ""
      then (
        some ("could not resolve API key for " <> app_type <> "/" <> app.name),
        some (unregistered config.name ("Could not resolve API key for " <> app.name)),
        s,
      )
      else registered

  unfoldable pub process_app_config : String → AppConfig → S → Processed S
  unfolding clear_registration process_reference
  process_app_config app_type app s = elim (reference_of app) [
    | none ↦ (none, clear_registration config.name app.registration, s)
    | some ref ↦
        let referred = process_reference ref app_type app s in
        if ref.name == config.name then referred else (none, app.registration, s)
  ]

  -- The loop over the objects of a kind: the errors, and the state after each status was written.
  unfoldable pub process_apps : String → List AppConfig → S → List String × S
  unfolding process_app_config
  process_apps app_type [] s = ([], s)
  process_apps app_type (app ∷ apps) s =
      let (e, registration, s₁) = process_app_config app_type app s in
      let (_, s₂) = r.update_status app_type (record app { registration = registration }) s₁ in
      let (errs, s₃) = process_apps app_type apps s₂ in
      (elim e [ none ↦ errs | some m ↦ m ∷ errs ], s₃)

  -- The objects of the kinds; a kind that cannot be listed is passed over.
  unfoldable pub process_kinds : String → List String → S → List String × S
  unfolding process_apps
  process_kinds namespace [] s = ([], s)
  process_kinds namespace (app_type ∷ kinds) s =
      let (errs, s₁) : List String × S = elim (r.list app_type namespace s) [
        | err e ↦ ([], s)
        | ok apps ↦ process_apps app_type apps s
      ] in
      let (more, s₂) = process_kinds namespace kinds s₁ in (errs ++ more, s₂)

abbrev pub app_kinds : List String
app_kinds = "radarr" ∷ "sonarr" ∷ "lidarr" ∷ "readarr" ∷ []

module _ {S : Type 0} (r : Coordinator S) where
  -- The work for a ProwlarrConfig that is connected.
  unfoldable pub coordinate : String → ProwlarrConfig → S → Outcome × S
  unfolding resolve_connection_secrets process_kinds
  coordinate namespace config s =
      elim (resolve_connection_secrets r.get_secret config.namespace config.spec.connection) [
        | err e ↦ ((after error_requeue_interval, some e), s)
        | ok secrets ↦
            let conn : ProwlarrConnection = record {
              url = config.spec.connection.url;
              api_key = api_key_of secrets;
            } in
            let (errs, s') = process_kinds r config conn namespace app_kinds s in
            (
              if is_nil errs then (after default_requeue_interval, none) else (
                after error_requeue_interval,
                some ("encountered " <> decimal (length errs) <> " errors during coordination"),
              ),
              s',
            )
      ]

  unfoldable pub reconcile_coordination : String → String → S → Outcome × S
  unfolding coordinate
  reconcile_coordination namespace name s = elim (r.get_prowlarr namespace name s) [
    | not_found ↦ ((no_requeue, none), s)
    | failed e ↦ ((no_requeue, some e), s)
    | found object ↦
        let coordinated = coordinate namespace object.config s in
        elim object.deletion_timestamp [
          | some t ↦ ((no_requeue, none), s)
          | none ↦ if object.connected then coordinated else ((after (pos 30000000000), none), s)
        ]
  ]

-- The ProwlarrConfig that a change of an object calls for: none, or that of its namespace that it names.
unfoldable pub map_app_config_to_prowlarr : AppConfig → List (String × String)
map_app_config_to_prowlarr app = elim app.indexers [
  | none ↦ []
  | some spec ↦ elim spec.prowlarr_ref [
    | none ↦ []
    | some ref ↦ if ref.name == "" then [] else (app.namespace, ref.name) ∷ []
  ]
]
