-- ===== src/Compiler/Convert/Clients.antt =====
-- internal/compiler/radarr.go: download clients, remote path mappings and indexers.
use nebularr_operator.Common.{
  String, Bool, true, false, ◌==◌, string_eq, if◌then◌else◌, ℤ, pos, Option, none, some, List, [],
  map,
}
use nebularr_operator.Common.Text.{atoi}
use nebularr_operator.Common.Dict.{Dict}
use nebularr_operator.Ir.{of_int}
use nebularr_operator.Api.{DownloadClientSpec, IndexersSpec, DirectIndexer, ProwlarrRef}
use nebularr_operator.Api.Specs.{RemotePathMappingSpec}
use nebularr_operator.Compiler.Types.{
  DownloadClientInput, RemotePathMappingInput, IndexersInput, IndexerInput, ProwlarrRefInput,
}
use nebularr_operator.Compiler.Convert.{ptr_or_default, resolve_key_ref, resolve_credentials_ref}
use nebularr_operator.Compiler.Convert.Names.{
  implementation_of, normalize_implementation_name, infer_indexer_implementation,
  convert_categories,
}

-- What `url.Parse` tells of a URL.
pub record ParsedUrl : Type 0 where
  pub scheme : String
  pub hostname : String
  pub port : String

abbrev pub ParseUrl : Type 0
ParseUrl = String → Option ParsedUrl

-- The port of the URL, or that of its scheme; what is no number is 0, or the largest number.
unfoldable pub port_of : ParsedUrl → ℤ
unfolding atoi
port_of parsed =
    if parsed.port == ""
    then if parsed.scheme == "https" then pos 443 else pos 80
    else (atoi parsed.port).0

unfoldable pub parse_client_url : ParseUrl → String → String × ℤ × Bool
unfolding port_of
parse_client_url parse_url raw_url = elim (parse_url raw_url) [
  | none ↦ (raw_url, pos 0, false)
  | some parsed ↦ (parsed.hostname, port_of parsed, parsed.scheme == "https")
]

unfoldable pub convert_download_client :
    ParseUrl → Dict String String → DownloadClientSpec → DownloadClientInput
unfolding parse_client_url implementation_of normalize_implementation_name resolve_credentials_ref
convert_download_client parse_url secrets dc =
    let (host, port, use_tls) = parse_client_url parse_url dc.url in
    let (username, password) = resolve_credentials_ref dc.credentials_secret_ref secrets in
    record {
      name = dc.name;
      implementation = normalize_implementation_name (implementation_of dc.type dc.name);
      host = host;
      port = port;
      use_tls = use_tls;
      username = username;
      password = password;
      category = dc.category;
      priority = dc.priority;
      remove_completed_downloads = ptr_or_default dc.remove_completed_downloads true;
      remove_failed_downloads = ptr_or_default dc.remove_failed_downloads true;
    }

unfoldable pub convert_download_clients :
    ParseUrl → List DownloadClientSpec → Dict String String → List DownloadClientInput
unfolding convert_download_client
convert_download_clients parse_url clients secrets =
    map (convert_download_client parse_url secrets) clients

abbrev pub convert_remote_path_mapping : RemotePathMappingSpec → RemotePathMappingInput
convert_remote_path_mapping m = record {
  host = m.host;
  remote_path = m.remote_path;
  local_path = m.local_path;
}

unfoldable pub convert_remote_path_mappings :
    List RemotePathMappingSpec → List RemotePathMappingInput
convert_remote_path_mappings = map convert_remote_path_mapping

abbrev pub convert_prowlarr_ref : ProwlarrRef → ProwlarrRefInput
convert_prowlarr_ref ref = record {
  config_name = ref.name;
  auto_register = ptr_or_default ref.auto_register true;
  include = ref.include;
  exclude = ref.exclude;
}

unfoldable pub convert_indexer : Dict String String → DirectIndexer → IndexerInput
unfolding convert_categories infer_indexer_implementation resolve_key_ref
convert_indexer secrets idx = record {
  name = idx.name;
  protocol = if idx.type == "usenet" then "usenet" else "torrent";
  implementation = infer_indexer_implementation idx.url idx.type;
  url = idx.url;
  api_key = resolve_key_ref "apiKey" idx.api_key_secret_ref secrets;
  categories = convert_categories idx.categories;
  priority = idx.priority;
  minimum_seeders = pos 0;
  seed_ratio = of_int (pos 0);
  seed_time_minutes = pos 0;
  enable_rss = true;
  enable_automatic_search = true;
  enable_interactive_search = true;
}

-- With a reference to a Prowlarr, the direct indexers are left out.
unfoldable pub convert_indexers : Option IndexersSpec → Dict String String → Option IndexersInput
unfolding convert_indexer
convert_indexers none secrets = none
convert_indexers (some spec) secrets = elim spec.prowlarr_ref [
  | some ref ↦ some (record { prowlarr_ref = some (convert_prowlarr_ref ref); direct = [] })
  | none ↦ some (record { prowlarr_ref = none; direct = map (convert_indexer secrets) spec.direct })
]
