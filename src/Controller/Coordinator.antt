-- ===== src/Controller/Coordinator.antt =====
-- internal/controller/prowlarr_coordinator_controller.go: the registration of all services that refer to a
-- ProwlarrConfig. The logs are left out.
pub mod Process
pub mod Names
pub mod Laws
pub mod Complete
pub mod Reports
use nebularr_operator.Common.{
  ℕ, String, ◌<>◌, string_eq, ◌==◌, not, if◌then◌else◌, Bool, true, false, ℤ, pos, contains, length,
  decimal, Option, none, some, List, [], ◌∷◌, ◌++◌, map, Result, ok, err,
}
use nebularr_operator.Common.Dict.{Dict}
use nebularr_operator.Changes.{is_nil}
use nebularr_operator.Api.{ProwlarrRef, ProwlarrApplication, IndexersSpec, ProwlarrRegistration}
use nebularr_operator.Api.Kinds.{ProwlarrConfig}
use nebularr_operator.Prowlarr.{
  AppRegistration, ProwlarrConnection, ProwlarrApi, register_app, sync_level_full_sync,
}
use nebularr_operator.Controller.Secrets.{resolve_secret_value, resolve_connection_secrets}
use nebularr_operator.Controller.Generic.{Outcome, no_requeue, after, api_key_of}
use nebularr_operator.Controller.Generic.Normal.{error_requeue_interval, default_requeue_interval}
use nebularr_operator.Controller.Generic.Registration.{auto_register_of}

-- What the coordinator reads and writes of a RadarrConfig, SonarrConfig, LidarrConfig or ReadarrConfig.
pub record AppConfig : Type 0 where
  pub name : String
  pub namespace : String
  pub indexers : Option IndexersSpec
  pub url : String
  pub registration : Option ProwlarrRegistration

pub record ProwlarrObject : Type 0 where
  pub config : ProwlarrConfig
  pub deletion_timestamp : Option ℕ
  pub connected : Bool

-- What the Kubernetes client answers to a `Get` of a ProwlarrConfig.
pub data FetchedProwlarr : Type 0 where
  found : ProwlarrObject → FetchedProwlarr
  not_found : FetchedProwlarr
  failed : String → FetchedProwlarr

-- The coordinator with what it calls: the Kubernetes client, which lists the objects of a kind in a namespace,
-- the service of registrations, and the clock.
pub record Coordinator (S : Type 0) : Type 0 where
  pub get_secret : String → String → Result (Dict String String)
  pub get_prowlarr : String → String → S → FetchedProwlarr
  pub list : String → String → S → Result (List AppConfig)
  pub update_status : String → AppConfig → S → Option String × S
  pub prowlarr : ProwlarrApi S
  pub now : ℕ

abbrev pub push_key : String → String → String
push_key app_type name = app_type <> "/" <> name

-- The keys of the map.
abbrev pub push_model_apps : ProwlarrConfig → List String
push_model_apps config =
    map (λ (app : ProwlarrApplication). push_key app.type app.name) config.spec.applications

abbrev pub unregistered : String → String → ProwlarrRegistration
unregistered prowlarr_name message = record {
  registered = false;
  prowlarr_name = prowlarr_name;
  application_id = none;
  last_sync = none;
  synced_indexers = [];
  message = message;
}

-- Without a reference, a registration with this Prowlarr is marked as gone.
unfoldable pub clear_registration :
    String → Option ProwlarrRegistration → Option ProwlarrRegistration
clear_registration prowlarr_name none = none
clear_registration prowlarr_name (some registration) =
    let kept = some registration in
    let cleared =
      if registration.prowlarr_name == prowlarr_name
      then some (unregistered "" "ProwlarrRef removed from config")
      else kept in
    if registration.registered then cleared else kept

abbrev pub pull_name : String → String → String
pull_name app_type name = "nebularr-pull-" <> name <> "-" <> app_type

-- The key from the secret of the kind, or else from that of the object, or else the empty text.
unfoldable pub resolve_app_key :
    (String → String → Result (Dict String String)) → String → String → String → String
unfolding resolve_secret_value
resolve_app_key get_secret namespace app_type name =
    elim (resolve_secret_value get_secret namespace (app_type <> "-api-key") "apiKey") [
      | ok key ↦ key
      | err e ↦ elim (resolve_secret_value get_secret namespace (name <> "-api-key") "apiKey") [
        | ok key ↦ key
        | err e' ↦ ""
      ]
    ]

abbrev pub pull_registration : ProwlarrConfig → String → AppConfig → String → AppRegistration
pull_registration config app_type app key = record {
  name = pull_name app_type app.name;
  type = app_type;
  url = app.url;
  api_key = key;
  prowlarr_url = config.spec.connection.url;
  sync_level = sync_level_full_sync;
  sync_categories = [];
  tags = [];
}

-- `indexers == nil || indexers.ProwlarrRef == nil`
abbrev pub reference_of : AppConfig → Option ProwlarrRef
reference_of app = elim app.indexers [ none ↦ none | some spec ↦ spec.prowlarr_ref ]
