-- ===== src/Compiler/Convert/Kinds.antt =====
-- internal/compiler/radarr.go: the compilation of the four kinds of services.
use nebularr_operator.Common.{ℕ, String, string_eq, Option, none, some, List, [], map}
use nebularr_operator.Common.Dict.{Dict}
use nebularr_operator.Common.Range.{RangeOrder}
use nebularr_operator.Ir.{Ir}
use nebularr_operator.Api.{
  ConnectionSpec, DownloadClientSpec, IndexersSpec, ImportListSpec, AuthenticationSpec,
}
use nebularr_operator.Api.Specs.{RemotePathMappingSpec, MediaManagementSpec, NotificationSpec}
use nebularr_operator.Api.Kinds.{
  RadarrConfig, SonarrConfig, LidarrConfig, LidarrRootFolder, ReadarrConfig,
}
use nebularr_operator.Compiler.Types.{CompileInput, Capabilities}
use nebularr_operator.Compiler.Compile.{
  Hashable, compile, app_radarr, app_sonarr, app_lidarr, app_readarr,
}
use nebularr_operator.Compiler.Convert.{value_or_empty}
use nebularr_operator.Compiler.Convert.Clients.{
  ParseUrl, convert_download_clients, convert_remote_path_mappings, convert_indexers,
}
use nebularr_operator.Compiler.Convert.Settings.{
  convert_import_lists, convert_notifications, convert_media_management, convert_authentication,
  convert_custom_formats, convert_delay_profiles,
}
use nebularr_operator.Compiler.Convert.Quality.{
  overrides_of, video_overrides, audio_overrides, convert_book_quality, convert_metadata_profile,
}

-- What the four kinds have in common.
pub record CommonSpec : Type 0 where
  pub connection : ConnectionSpec
  pub download_clients : List DownloadClientSpec
  pub remote_path_mappings : List RemotePathMappingSpec
  pub indexers : Option IndexersSpec
  pub import_lists : List ImportListSpec
  pub media_management : Option MediaManagementSpec
  pub authentication : Option AuthenticationSpec
  pub notifications : List NotificationSpec

module _ (parse_url : ParseUrl) (order : RangeOrder (String × String)) where
  -- The input with what the kinds have in common; the rest is left at zero.
  unfoldable pub common_input :
      String
      → String
      → String
      → CommonSpec
      → Dict String String
      → Option Capabilities
      → CompileInput
  unfolding value_or_empty convert_download_clients convert_remote_path_mappings convert_indexers
      convert_import_lists convert_media_management convert_authentication convert_notifications
  common_input app name namespace spec secrets caps = record {
    app = app;
    config_name = name;
    namespace = namespace;
    url = spec.connection.url;
    api_key = value_or_empty "apiKey" secrets;
    quality_preset = "";
    quality_overrides = none;
    naming_preset = "";
    download_clients = convert_download_clients parse_url spec.download_clients secrets;
    remote_path_mappings = convert_remote_path_mappings spec.remote_path_mappings;
    indexers = convert_indexers spec.indexers secrets;
    root_folders = [];
    import_lists = convert_import_lists order spec.import_lists secrets;
    media_management = convert_media_management spec.media_management;
    authentication = convert_authentication spec.authentication secrets;
    notifications = convert_notifications order spec.notifications secrets;
    custom_formats = [];
    delay_profiles = [];
    metadata_profile = none;
    book_quality = none;
    capabilities = caps;
    resolved_secrets = secrets;
  }

  unfoldable pub radarr_input :
      RadarrConfig → Dict String String → Option Capabilities → CompileInput
  unfolding common_input overrides_of convert_custom_formats convert_delay_profiles
  radarr_input config secrets caps =
      record (common_input app_radarr config.name config.namespace
        (record {
          connection = config.spec.connection;
          download_clients = config.spec.download_clients;
          remote_path_mappings = config.spec.remote_path_mappings;
          indexers = config.spec.indexers;
          import_lists = config.spec.import_lists;
          media_management = config.spec.media_management;
          authentication = config.spec.authentication;
          notifications = config.spec.notifications;
        })
        secrets caps) {
          quality_preset = elim config.spec.quality [ none ↦ "" | some q ↦ q.preset ];
          quality_overrides = elim config.spec.quality [ none ↦ none | some q ↦ video_overrides q ];
          naming_preset = elim config.spec.naming [ none ↦ "" | some n ↦ n.preset ];
          root_folders = config.spec.root_folders;
          custom_formats = convert_custom_formats config.spec.custom_formats;
          delay_profiles = convert_delay_profiles config.spec.delay_profiles;
        }

  unfoldable pub sonarr_input :
      SonarrConfig → Dict String String → Option Capabilities → CompileInput
  unfolding common_input overrides_of convert_custom_formats convert_delay_profiles
  sonarr_input config secrets caps =
      record (common_input app_sonarr config.name config.namespace
        (record {
          connection = config.spec.connection;
          download_clients = config.spec.download_clients;
          remote_path_mappings = config.spec.remote_path_mappings;
          indexers = config.spec.indexers;
          import_lists = config.spec.import_lists;
          media_management = config.spec.media_management;
          authentication = config.spec.authentication;
          notifications = config.spec.notifications;
        })
        secrets caps) {
          quality_preset = elim config.spec.quality [ none ↦ "" | some q ↦ q.preset ];
          quality_overrides = elim config.spec.quality [ none ↦ none | some q ↦ video_overrides q ];
          naming_preset = elim config.spec.naming [ none ↦ "" | some n ↦ n.naming_spec.preset ];
          root_folders = config.spec.root_folders;
          custom_formats = convert_custom_formats config.spec.custom_formats;
          delay_profiles = convert_delay_profiles config.spec.delay_profiles;
        }

  unfoldable pub lidarr_input :
      LidarrConfig → Dict String String → Option Capabilities → CompileInput
  unfolding common_input overrides_of
  lidarr_input config secrets caps =
      record (common_input app_lidarr config.name config.namespace
        (record {
          connection = config.spec.connection;
          download_clients = config.spec.download_clients;
          remote_path_mappings = config.spec.remote_path_mappings;
          indexers = config.spec.indexers;
          import_lists = config.spec.import_lists;
          media_management = config.spec.media_management;
          authentication = config.spec.authentication;
          notifications = config.spec.notifications;
        })
        secrets caps) {
          quality_preset = elim config.spec.quality [ none ↦ "" | some q ↦ q.preset ];
          quality_overrides = elim config.spec.quality [ none ↦ none | some q ↦ audio_overrides q ];
          naming_preset = elim config.spec.naming [ none ↦ "" | some n ↦ n.naming_spec.preset ];
          root_folders = map (λ (rf : LidarrRootFolder). rf.path) config.spec.root_folders;
        }

  unfoldable pub readarr_input :
      ReadarrConfig → Dict String String → Option Capabilities → CompileInput
  unfolding common_input convert_book_quality
  readarr_input config secrets caps =
      record (common_input app_readarr config.name config.namespace
        (record {
          connection = config.spec.connection;
          download_clients = config.spec.download_clients;
          remote_path_mappings = config.spec.remote_path_mappings;
          indexers = config.spec.indexers;
          import_lists = config.spec.import_lists;
          media_management = config.spec.media_management;
          authentication = config.spec.authentication;
          notifications = config.spec.notifications;
        })
        secrets caps) {
          quality_preset = elim config.spec.quality [ none ↦ "" | some q ↦ q.preset ];
          book_quality = elim config.spec.quality [ none ↦ none | some q ↦ convert_book_quality q ];
          metadata_profile = elim config.spec.metadata_profile [
            | none ↦ none
            | some p ↦ some (convert_metadata_profile p)
          ];
          naming_preset = elim config.spec.naming [ none ↦ "" | some n ↦ n.naming_spec.preset ];
          root_folders = config.spec.root_folders;
        }

  unfoldable pub compile_radarr_config :
      ℕ → (Hashable → String) → RadarrConfig → Dict String String → Option Capabilities → Ir
  unfolding radarr_input compile
  compile_radarr_config now digest config secrets caps =
      compile digest now (radarr_input config secrets caps)

  unfoldable pub compile_sonarr_config :
      ℕ → (Hashable → String) → SonarrConfig → Dict String String → Option Capabilities → Ir
  unfolding sonarr_input compile
  compile_sonarr_config now digest config secrets caps =
      compile digest now (sonarr_input config secrets caps)

  unfoldable pub compile_lidarr_config :
      ℕ → (Hashable → String) → LidarrConfig → Dict String String → Option Capabilities → Ir
  unfolding lidarr_input compile
  compile_lidarr_config now digest config secrets caps =
      compile digest now (lidarr_input config secrets caps)

  unfoldable pub compile_readarr_config :
      ℕ → (Hashable → String) → ReadarrConfig → Dict String String → Option Capabilities → Ir
  unfolding readarr_input compile
  compile_readarr_config now digest config secrets caps =
      compile digest now (readarr_input config secrets caps)
