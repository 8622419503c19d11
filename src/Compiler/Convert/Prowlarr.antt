-- ===== src/Compiler/Convert/Prowlarr.antt =====
-- internal/compiler/prowlarr.go: the compilation of a ProwlarrConfig, whose parts are not those of the services.
use nebularr_operator.Common.{
  ℕ, String, true, false, ◌==◌, ◌&&◌, string_eq, int_eq, if◌then◌else◌, ℤ, pos, none, some, List,
  [], ◌∷◌, map,
}
use nebularr_operator.Common.Text.{to_lower}
use nebularr_operator.Common.Dict.{Dict, lookup}
use nebularr_operator.Common.Range.{RangeOrder}
use nebularr_operator.Changes.{is_nil}
use nebularr_operator.Ir.{
  Ir, DownloadClientIr, ProwlarrIr, ProwlarrIndexerIr, IndexerProxyIr, ProwlarrApplicationIr,
}
use nebularr_operator.Api.{ProwlarrIndexer, IndexerProxy, ProwlarrApplication, DownloadClientSpec}
use nebularr_operator.Api.Kinds.{ProwlarrConfig}
use nebularr_operator.Prowlarr.{default_sync_categories, sync_level_full_sync}
use nebularr_operator.Compiler.Resources.{owned_name, infer_protocol}
use nebularr_operator.Compiler.Compile.{ir_version}
use nebularr_operator.Compiler.Convert.{
  ptr_or_default, default_string, value_or_empty, resolve_key_ref, resolve_credentials_ref,
}
use nebularr_operator.Compiler.Convert.Names.{
  implementation_of, category_or_zero, convert_categories_by,
}
use nebularr_operator.Compiler.Convert.Clients.{ParseUrl, parse_client_url}
use nebularr_operator.Compiler.Convert.Settings.{copy_settings}

abbrev pub app_prowlarr : String
app_prowlarr = "prowlarr"

abbrev pub prowlarr_categories : Dict String ℤ
prowlarr_categories =
    ("movies", pos 2000)
    ∷ ("movies-sd", pos 2030)
    ∷ ("movies-hd", pos 2040)
    ∷ ("movies-uhd", pos 2045)
    ∷ ("movies-4k", pos 2045)
    ∷ ("movies-bluray", pos 2050)
    ∷ ("movies-webdl", pos 2010)
    ∷ ("movies-dvd", pos 2020)
    ∷ ("movies-3d", pos 2060)
    ∷ ("tv", pos 5000)
    ∷ ("tv-foreign", pos 5010)
    ∷ ("tv-sd", pos 5030)
    ∷ ("tv-hd", pos 5040)
    ∷ ("tv-uhd", pos 5045)
    ∷ ("tv-4k", pos 5045)
    ∷ ("tv-webdl", pos 5010)
    ∷ ("tv-dvd", pos 5020)
    ∷ ("tv-anime", pos 5070)
    ∷ ("tv-sport", pos 5060)
    ∷ ("audio", pos 3000)
    ∷ ("music", pos 3000)
    ∷ ("audio-mp3", pos 3010)
    ∷ ("music-mp3", pos 3010)
    ∷ ("audio-video", pos 3020)
    ∷ ("music-video", pos 3020)
    ∷ ("audio-lossless", pos 3040)
    ∷ ("music-lossless", pos 3040)
    ∷ ("audio-flac", pos 3040)
    ∷ ("music-flac", pos 3040)
    ∷ ("audio-foreign", pos 3030)
    ∷ ("music-foreign", pos 3030)
    ∷ ("books", pos 7000)
    ∷ ("books-ebook", pos 7020)
    ∷ ("books-comics", pos 7030)
    ∷ ("books-mags", pos 7010)
    ∷ ("xxx", pos 6000)
    ∷ ("xxx-dvd", pos 6010)
    ∷ ("xxx-wmv", pos 6020)
    ∷ ("xxx-xvid", pos 6030)
    ∷ ("xxx-x264", pos 6040)
    ∷ ("xxx-other", pos 6050)
    ∷ ("other", pos 7010)
    ∷ ("misc", pos 7999)
    ∷ []

unfoldable pub map_prowlarr_category_name : String → ℤ
unfolding category_or_zero
map_prowlarr_category_name = category_or_zero prowlarr_categories

-- Without categories, those that the type of the app has by default.
unfoldable pub convert_prowlarr_categories : List String → String → List ℤ
unfolding convert_categories_by map_prowlarr_category_name
convert_prowlarr_categories cats app_type =
    if is_nil cats
    then elim (lookup app_type default_sync_categories) [ none ↦ [] | some defaults ↦ defaults ]
    else convert_categories_by map_prowlarr_category_name cats

unfoldable pub compile_prowlarr_indexer :
    RangeOrder (String × String) → String → Dict String String → ProwlarrIndexer → ProwlarrIndexerIr
unfolding copy_settings resolve_key_ref
compile_prowlarr_indexer order config_name secrets idx = record {
  name = owned_name config_name idx.name;
  definition = idx.definition;
  enable = ptr_or_default idx.enabled true;
  priority = if idx.priority == pos 0 then pos 25 else idx.priority;
  base_url = idx.base_url;
  api_key = resolve_key_ref "apiKey" idx.api_key_secret_ref secrets;
  settings = copy_settings (λ (s : String). s) (order.visit idx.settings) [];
  tags = idx.tags;
}

-- FlareSolverr has a timeout by default.
unfoldable pub compile_prowlarr_proxy : String → Dict String String → IndexerProxy → IndexerProxyIr
unfolding resolve_credentials_ref
compile_prowlarr_proxy config_name secrets proxy =
    let (username, password) = resolve_credentials_ref proxy.credentials_secret_ref secrets in
    record {
      name = owned_name config_name proxy.name;
      type = proxy.type;
      host = proxy.host;
      port = proxy.port;
      username = username;
      password = password;
      request_timeout =
          if proxy.type == "flaresolverr" && proxy.request_timeout == pos 0
          then pos 60
          else proxy.request_timeout;
      tags = proxy.tags;
    }

unfoldable pub compile_prowlarr_application :
    String → String → Dict String String → ProwlarrApplication → ProwlarrApplicationIr
unfolding convert_prowlarr_categories resolve_key_ref
compile_prowlarr_application config_name prowlarr_url secrets app = record {
  name = owned_name config_name app.name;
  type = app.type;
  prowlarr_url = prowlarr_url;
  url = app.url;
  api_key = resolve_key_ref "apiKey" app.api_key_secret_ref secrets;
  sync_categories = convert_prowlarr_categories app.sync_categories app.type;
  sync_level = default_string app.sync_level sync_level_full_sync;
  tags = [];
}

unfoldable pub compile_prowlarr_download_client :
    ParseUrl → String → Dict String String → DownloadClientSpec → DownloadClientIr
unfolding parse_client_url implementation_of to_lower infer_protocol resolve_credentials_ref
compile_prowlarr_download_client parse_url config_name secrets dc =
    let (host, port, use_tls) = parse_client_url parse_url dc.url in
    let (username, password) = resolve_credentials_ref dc.credentials_secret_ref secrets in
    let impl = implementation_of dc.type dc.name in
    record {
      id = pos 0;
      name = owned_name config_name dc.name;
      protocol = infer_protocol impl;
      implementation = to_lower impl;
      enable = true;
      priority = dc.priority;
      remove_completed_downloads = false;
      remove_failed_downloads = false;
      host = host;
      port = port;
      use_tls = use_tls;
      username = username;
      password = password;
      category = dc.category;
      directory = "";
    }

module _ (parse_url : ParseUrl) (order : RangeOrder (String × String)) where
  unfoldable pub prowlarr_ir : ProwlarrConfig → Dict String String → ProwlarrIr
  unfolding value_or_empty compile_prowlarr_indexer compile_prowlarr_proxy
      compile_prowlarr_application compile_prowlarr_download_client
  prowlarr_ir config secrets = record {
    connection = some (record {
      url = config.spec.connection.url;
      api_key = value_or_empty "apiKey" secrets;
      insecure_skip_verify = false;
    });
    indexers = map (compile_prowlarr_indexer order config.name secrets) config.spec.indexers;
    proxies = map (compile_prowlarr_proxy config.name secrets) config.spec.proxies;
    applications =
        map (compile_prowlarr_application config.name config.spec.connection.url secrets)
          config.spec.applications;
    download_clients =
        map (compile_prowlarr_download_client parse_url config.name secrets)
          config.spec.download_clients;
    unrealized = [];
  }

  unfoldable pub compile_prowlarr_config : ℕ → ProwlarrConfig → Dict String String → Ir
  unfolding prowlarr_ir
  compile_prowlarr_config now config secrets = record {
    version = ir_version;
    generated_at = now;
    source_hash = "";
    app = app_prowlarr;
    connection = (prowlarr_ir config secrets).connection;
    quality = none;
    download_clients = [];
    remote_path_mappings = [];
    indexers = none;
    naming = none;
    root_folders = [];
    import_lists = [];
    notifications = [];
    custom_formats = [];
    delay_profiles = [];
    release_profiles = [];
    metadata_profiles = [];
    media_management = none;
    authentication = none;
    prowlarr = some (prowlarr_ir config secrets);
    unrealized = [];
  }
