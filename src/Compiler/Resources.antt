-- ===== src/Compiler/Resources.antt =====
-- internal/compiler/resources.go, and the name tests of prune.go.
use nebularr_operator.Common.{
  String, ◌<>◌, true, false, ◌==◌, ◌||◌, string_eq, if◌then◌else◌, pos, Option, none, some, List,
  [], ◌∷◌, ◌++◌, map,
}
use nebularr_operator.Ir.{
  DownloadClientIr, RemotePathMappingIr, IndexersIr, IndexerIr, ProwlarrRefIr, BookQualityIr,
  BookQualityTierIr, MetadataProfileIr, of_int,
}
use nebularr_operator.Compiler.Types.{
  DownloadClientInput, RemotePathMappingInput, IndexersInput, IndexerInput, ProwlarrRefInput,
  BookQualityInput, MetadataProfileInput,
}

-- `fmt.Sprintf("nebularr-%s-%s", configName, name)`
abbrev pub owned_name : String → String → String
owned_name config_name name = "nebularr-" <> config_name <> "-" <> name

unfoldable pub infer_protocol : String → String
infer_protocol impl =
    if impl == "qbittorrent"
      || impl == "QBittorrent"
      || impl == "transmission"
      || impl == "Transmission"
      || impl == "deluge"
      || impl == "Deluge"
      || impl == "rtorrent"
      || impl == "RTorrent"
      || impl == "Torznab"
    then "torrent"
    else if impl == "sabnzbd"
        || impl == "Sabnzbd"
        || impl == "nzbget"
        || impl == "NzbGet"
        || impl == "Newznab"
    then "usenet"
    else ""

unfoldable pub normalize_implementation : String → String
normalize_implementation impl =
    if impl == "qbittorrent"
    then "QBittorrent"
    else if impl == "transmission"
    then "Transmission"
    else if impl == "deluge"
    then "Deluge"
    else if impl == "rtorrent"
    then "RTorrent"
    else if impl == "sabnzbd"
    then "Sabnzbd"
    else if impl == "nzbget"
    then "NzbGet"
    else impl

abbrev pub compile_download_client : String → DownloadClientInput → DownloadClientIr
compile_download_client config_name dc = record {
  id = pos 0;
  name = owned_name config_name dc.name;
  protocol = infer_protocol dc.implementation;
  implementation = dc.implementation;
  enable = true;
  priority = dc.priority;
  remove_completed_downloads = dc.remove_completed_downloads;
  remove_failed_downloads = dc.remove_failed_downloads;
  host = dc.host;
  port = dc.port;
  use_tls = dc.use_tls;
  username = dc.username;
  password = dc.password;
  category = dc.category;
  directory = "";
}

unfoldable pub compile_download_clients : List DownloadClientInput → String → List DownloadClientIr
compile_download_clients clients config_name = map (compile_download_client config_name) clients

unfoldable pub compile_remote_path_mappings : List RemotePathMappingInput → List RemotePathMappingIr
compile_remote_path_mappings mappings =
    map
      (λ (m : RemotePathMappingInput). record {
        id = pos 0;
        host = m.host;
        remote_path = m.remote_path;
        local_path = m.local_path;
      })
      mappings

abbrev pub compile_prowlarr_ref : ProwlarrRefInput → ProwlarrRefIr
compile_prowlarr_ref r = record {
  config_name = r.config_name;
  auto_register = r.auto_register;
  include = r.include;
  exclude = r.exclude;
}

abbrev pub compile_indexer : String → IndexerInput → IndexerIr
compile_indexer config_name idx = record {
  id = pos 0;
  name = owned_name config_name idx.name;
  protocol = idx.protocol;
  implementation = idx.implementation;
  enable = true;
  priority = idx.priority;
  url = idx.url;
  api_key = idx.api_key;
  categories = idx.categories;
  minimum_seeders = idx.minimum_seeders;
  seed_ratio = idx.seed_ratio;
  seed_time_minutes = idx.seed_time_minutes;
  enable_rss = idx.enable_rss;
  enable_automatic_search = idx.enable_automatic_search;
  enable_interactive_search = idx.enable_interactive_search;
}

unfoldable pub compile_indexers : Option IndexersInput → String → Option IndexersIr
compile_indexers none config_name = none
compile_indexers (some input) config_name = some (record {
  prowlarr_ref = elim input.prowlarr_ref [ none ↦ none | some r ↦ some (compile_prowlarr_ref r) ];
  direct = map (compile_indexer config_name) input.direct;
})

abbrev pub book_tier : String → BookQualityTierIr
book_tier format = record { name = format; formats = format ∷ []; allowed = true }

-- A cutoff that is not set is the zero value.
abbrev no_book_cutoff : BookQualityTierIr
no_book_cutoff = record { name = ""; formats = []; allowed = false }

-- The loop over the allowed formats.
unfoldable pub add_book_tiers : String → List String → BookQualityIr → BookQualityIr
add_book_tiers cutoff [] ir = ir
add_book_tiers cutoff (format ∷ formats) ir = add_book_tiers cutoff formats (record ir {
  tiers = ir.tiers ++ book_tier format ∷ [];
  cutoff = if format == cutoff then book_tier format else ir.cutoff;
})

-- The nil test of the source is the caller's match.
unfoldable pub compile_book_quality : BookQualityInput → String → BookQualityIr
unfolding add_book_tiers
compile_book_quality input profile_name =
    add_book_tiers input.cutoff_format input.allowed_formats (record {
      profile_name = profile_name;
      upgrade_allowed = input.upgrade_allowed;
      cutoff = no_book_cutoff;
      tiers = [];
    })

-- The languages with commas between them.
unfoldable pub join_languages : List String → String
join_languages [] = ""
join_languages (lang ∷ []) = lang
join_languages (lang ∷ next ∷ langs) = lang <> "," <> join_languages (next ∷ langs)

unfoldable pub compile_metadata_profile : MetadataProfileInput → String → MetadataProfileIr
unfolding join_languages
compile_metadata_profile input profile_name = record {
  id = none;
  name = if input.name == "" then profile_name else "nebularr-" <> input.name;
  min_popularity = of_int input.min_popularity;
  skip_missing_date = input.skip_missing_date;
  skip_missing_isbn = input.skip_missing_isbn;
  skip_parts_and_sets = input.skip_parts_and_sets;
  skip_series_secondary = input.skip_series_secondary;
  allowed_languages = join_languages input.allowed_languages;
}
