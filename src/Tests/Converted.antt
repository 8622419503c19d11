-- ===== src/Tests/Converted.antt =====
-- Conversions of the specification of a Radarr and of a Lidarr.
use nebularr_operator.Common.{
  List, if◌then◌else◌, String, string_eq, ◌==◌, if◌then◌else◌, true, false, ◌≡◌, refl, pos, none,
  some, [], ◌∷◌, All,
}
use nebularr_operator.Common.Dict.{Dict, lookup}
use nebularr_operator.Changes.{is_nil}
use nebularr_operator.Ir.{Any}
use nebularr_operator.Api.{ImportListSpec, ConnectionSpec}
use nebularr_operator.Api.Specs.{NotificationSpec, CustomFormatSpec}
use nebularr_operator.Api.Kinds.{RadarrConfig, LidarrConfig}
use nebularr_operator.Controller.Secrets.{resolve_download_client_secrets}
use nebularr_operator.Compiler.Compile.{Hashable}
use nebularr_operator.Compiler.Convert.Names.{convert_categories}
use nebularr_operator.Compiler.Convert.Clients.{ParseUrl}
use nebularr_operator.Compiler.Convert.Settings.{convert_import_list, convert_notification}
use nebularr_operator.Compiler.Convert.Kinds.{compile_radarr_config, compile_lidarr_config}
use nebularr_operator.Compiler.Convert.Prowlarr.{convert_prowlarr_categories}
use nebularr_operator.Compiler.Convert.Entries.{or_else}
use nebularr_operator.Compiler.Convert.Laws.{IsAuthorized, clients-IsAuthorized, settings_merged}
use nebularr_operator.Compiler.Convert.Ignored.{bare_radarr, bare_lidarr, settings_ignored}
use nebularr_operator.Compiler.Convert.Bounds.{AllFit, known_ids, defaults_of, categories_known}
use nebularr_operator.Compiler.Convert.Names.{categories}
use nebularr_operator.Compiler.Convert.Prowlarr.{prowlarr_categories}
use nebularr_operator.Tests.Data.{in_order, in_reverse, capabilities}
use nebularr_operator.Tests.Secrets.{secrets, qbittorrent, qbittorrent-IsUnambiguous, nzbgeek}

-- A reading of the one URL that occurs.
abbrev parse_url : ParseUrl
parse_url url =
    if url == "http://qbittorrent:8080"
    then some (record { scheme = "http"; hostname = "qbittorrent"; port = "8080" })
    else none

clients-IsAuthorized_example :
    All
      (IsAuthorized secrets "media" parse_url
        (resolve_download_client_secrets secrets "media" (qbittorrent ∷ []) []).1)
      (qbittorrent ∷ [])
unfolding string_eq resolve_download_client_secrets lookup
clients-IsAuthorized_example =
    clients-IsAuthorized secrets "media" parse_url (qbittorrent ∷ []) [] qbittorrent-IsUnambiguous
      refl

abbrev trakt : ImportListSpec
trakt = record {
  name = "popular";
  type = "TraktPopularImport";
  enabled = none;
  enable_auto = some false;
  search_on_add = none;
  quality_profile = "";
  root_folder = "/movies";
  monitor = "";
  minimum_availability = "";
  series_type = "";
  season_folder = none;
  should_monitor = "";
  settings = ("limit", "100") ∷ ("accessToken", "none") ∷ [];
  settings_secret_ref = some (record { name = "trakt"; key = "" });
}

abbrev discord : NotificationSpec
discord = record {
  name = "discord";
  type = "Discord";
  enabled = some false;
  on_grab = some true;
  on_download = none;
  on_upgrade = none;
  on_rename = none;
  on_health_issue = some true;
  on_health_restored = none;
  on_application_update = none;
  on_manual_interaction_required = none;
  include_health_warnings = none;
  on_movie_added = none;
  on_movie_delete = none;
  on_movie_file_delete = none;
  on_movie_file_delete_for_upgrade = none;
  on_series_add = none;
  on_series_delete = none;
  on_episode_file_delete = none;
  on_episode_file_delete_for_upgrade = none;
  on_release_import = none;
  on_artist_add = none;
  on_artist_delete = none;
  on_album_delete = none;
  on_track_retag = none;
  on_download_failure = none;
  on_import_failure = none;
  settings = ("username", "radarr") ∷ [];
  settings_secret_ref = some (record { name = "discord"; key = "" });
  tags = [];
}

abbrev resolved : Dict String String
resolved =
    ("trakt/accessToken", "abc") ∷ ("discord/webHookUrl", "https://discord.com/api/webhooks/1") ∷ []

settings_merged_example :
    (lookup "accessToken" (convert_import_list in_reverse resolved trakt).settings
      ≡ or_else
          (λ (s : String). s)
          (lookup "trakt/accessToken" resolved)
          (lookup "accessToken" trakt.settings))
    × (lookup "accessToken" (convert_notification in_reverse resolved discord).fields
        ≡ or_else Any.text
            (lookup "discord/accessToken" resolved)
            (or_else Any.text (lookup "accessToken" discord.settings) none))
unfolding lookup string_eq
settings_merged_example =
    settings_merged in_reverse resolved trakt discord "accessToken" (refl, (refl, tt))
      (refl, (refl, tt)) (refl, tt)

abbrev connection_spec : ConnectionSpec
connection_spec = record {
  url = "http://radarr:7878";
  api_key_secret_ref = none;
  config_path = "";
  insecure_skip_verify = false;
  timeout = none;
}

abbrev remux : CustomFormatSpec
remux = record { name = "remux"; include_when_renaming = none; score = pos 50; specifications = [] }

abbrev radarr : RadarrConfig
radarr = record {
  name = "main";
  namespace = "media";
  spec = record {
    connection = connection_spec;
    quality = some (record {
      preset = "";
      template_ref = some (record { name = "uhd" });
      exclude = [];
      prefer_additional = [];
      reject_additional = [];
      tiers = [];
      upgrade_until = none;
      preferred_formats = "hdr10" ∷ [];
      rejected_formats = [];
    });
    download_clients = record qbittorrent { enabled = some false } ∷ [];
    remote_path_mappings = [];
    indexers = some (record { prowlarr_ref = none; direct = nzbgeek ∷ [] });
    naming = some (record {
      preset = "";
      rename_media = some true;
      standard_format = "{Movie Title}";
      folder_format = "";
    });
    root_folders = "/movies" ∷ [];
    import_lists = trakt ∷ [];
    media_management = none;
    authentication = none;
    notifications = discord ∷ [];
    custom_formats = remux ∷ [];
    delay_profiles = [];
    reconciliation = none;
  };
}

abbrev lidarr : LidarrConfig
lidarr = record {
  name = "music";
  namespace = "media";
  spec = record {
    connection = connection_spec;
    quality = none;
    metadata =
        some (record { primary_types = "Album" ∷ []; secondary_types = []; release_statuses = [] });
    download_clients = [];
    remote_path_mappings = [];
    indexers = none;
    naming = none;
    root_folders = record { path = "/music"; name = "Music"; default_monitor = "all" } ∷ [];
    import_lists = [];
    media_management = none;
    authentication = none;
    notifications = [];
    custom_formats = remux ∷ [];
    delay_profiles = [];
    reconciliation = none;
  };
}

abbrev digest : Hashable → String
digest h = h.config_name

settings_ignored_example :
    (compile_radarr_config parse_url in_order 1700 digest
        (bare_radarr radarr)
        resolved
        (some capabilities)
      ≡ compile_radarr_config parse_url in_order 1700 digest radarr resolved (some capabilities))
    × (compile_lidarr_config parse_url in_order 1700 digest
          (bare_lidarr lidarr)
          resolved
          (some capabilities)
        ≡ compile_lidarr_config parse_url in_order 1700 digest lidarr resolved (some capabilities))
settings_ignored_example =
    settings_ignored parse_url in_order 1700 digest radarr lidarr resolved (some capabilities)

abbrev texts : List String
texts = "movies-hd" ∷ "5040" ∷ "unknown" ∷ []

categories_known_example :
    (convert_categories texts ≡ known_ids categories texts)
    × (convert_prowlarr_categories texts "sonarr"
        ≡ (if is_nil texts then defaults_of "sonarr" else known_ids prowlarr_categories texts))
    × AllFit (convert_categories texts)
    × AllFit (convert_prowlarr_categories texts "sonarr")
categories_known_example = categories_known texts "sonarr"
