-- ===== src/Tests/Data.antt =====
-- Sample resources.
use mathlib.Core.List.{reverse}
use mathlib.Core.List.Permᴰ
use nebularr_operator.Common.{String, true, false, ℤ, pos, none, some, List, [], ◌∷◌}
use nebularr_operator.Common.Range.{RangeOrder}
use nebularr_operator.Ir.{
  DownloadClientIr, IndexerIr, CustomFormatIr, FormatSpecIr, RemotePathMappingIr, DelayProfileIr,
  RootFolderIr, ConnectionIr, of_int,
}
use nebularr_operator.Compiler.Types.{
  CompileInput, Capabilities, CustomFormatInput, DelayProfileInput, ImportListInput,
  DownloadClientInput,
}

-- Two orders in which Go may visit a map.
abbrev pub in_order : {A : Type 0} → RangeOrder A
in_order = record { visit = λ l. l; visit-perm = λ l. Permᴰ.refl l }

abbrev pub in_reverse : {A : Type 0} → RangeOrder A
in_reverse = record { visit = λ l. reverse l; visit-perm = λ l. Permᴰ.reverse l }

abbrev pub client : ℤ → String → String → DownloadClientIr
client id name host = record {
  id = id;
  name = name;
  protocol = "torrent";
  implementation = "qbittorrent";
  enable = true;
  priority = pos 0;
  remove_completed_downloads = false;
  remove_failed_downloads = false;
  host = host;
  port = pos 8080;
  use_tls = false;
  username = "";
  password = "";
  category = "";
  directory = "";
}

abbrev pub indexer : ℤ → String → String → IndexerIr
indexer id name url = record {
  id = id;
  name = name;
  protocol = "";
  implementation = "Torznab";
  enable = true;
  priority = pos 0;
  url = url;
  api_key = "";
  categories = [];
  minimum_seeders = pos 0;
  seed_ratio = of_int (pos 0);
  seed_time_minutes = pos 0;
  enable_rss = false;
  enable_automatic_search = false;
  enable_interactive_search = false;
}

abbrev pub spec : String → String → FormatSpecIr
spec name value = record {
  type = "ReleaseTitleSpecification";
  name = name;
  negate = false;
  required = true;
  value = value;
}

abbrev pub format : String → List FormatSpecIr → CustomFormatIr
format name specs = record {
  id = pos 0;
  name = name;
  include_when_renaming = false;
  specifications = specs;
}

abbrev pub mapping : ℤ → String → RemotePathMappingIr
mapping id local_path = record {
  id = id;
  host = "nas";
  remote_path = "/downloads";
  local_path = local_path;
}

abbrev pub profile : ℤ → ℤ → DelayProfileIr
profile id order = record {
  id = id;
  name = "";
  order = order;
  preferred_protocol = "usenet";
  usenet_delay = pos 0;
  torrent_delay = pos 0;
  enable_usenet = false;
  enable_torrent = false;
  bypass_if_highest_quality = false;
  bypass_if_above_custom_format_score = false;
  minimum_custom_format_score = pos 0;
  tags = [];
  tag_names = [];
}

abbrev pub folder : String → RootFolderIr
folder path = record { path = path; name = ""; default_monitor = "" }

abbrev pub format_input : String → ℤ → CustomFormatInput
format_input name score = record {
  name = name;
  include_when_renaming = false;
  score = score;
  specifications = [];
}

abbrev pub profile_input : String → DelayProfileInput
profile_input name = record {
  name = name;
  preferred_protocol = "";
  usenet_delay = pos 0;
  torrent_delay = pos 0;
  enable_usenet = true;
  enable_torrent = false;
  bypass_if_highest_quality = false;
  bypass_if_above_custom_format_score = false;
  minimum_custom_format_score = pos 0;
  tags = [];
  order = pos 0;
}

abbrev pub client_input : String → DownloadClientInput
client_input implementation = record {
  name = "main";
  implementation = implementation;
  host = "nas";
  port = pos 0;
  use_tls = false;
  username = "";
  password = "";
  category = "";
  priority = pos 0;
  remove_completed_downloads = false;
  remove_failed_downloads = false;
}

abbrev pub list_input : String → ImportListInput
list_input name = record {
  name = name;
  type = "";
  enabled = true;
  enable_auto = false;
  search_on_add = false;
  quality_profile_name = "";
  root_folder_path = "";
  monitor = "";
  minimum_availability = "";
  series_type = "";
  season_folder = false;
  should_monitor = "";
  settings = [];
}

abbrev pub capabilities : Capabilities
capabilities = record {
  discovered_at = 0;
  resolutions = "1080p" ∷ [];
  sources = [];
  custom_format_specs = [];
  audio_tiers = [];
  download_client_types = "QBittorrent" ∷ [];
  indexer_types = [];
}

abbrev pub input : CompileInput
input = record {
  app = "radarr";
  config_name = "movies";
  namespace = "";
  url = "";
  api_key = "";
  quality_preset = "4k-hdr";
  quality_overrides = none;
  naming_preset = "";
  download_clients = client_input "qbittorrent" ∷ client_input "deluge" ∷ [];
  remote_path_mappings = [];
  indexers = none;
  root_folders = [];
  import_lists = [];
  media_management = none;
  authentication = none;
  notifications = [];
  custom_formats = format_input "remux" (pos 50) ∷ format_input "cam" (pos 0) ∷ [];
  delay_profiles = [];
  metadata_profile = none;
  book_quality = none;
  capabilities = some capabilities;
  resolved_secrets = [];
}

abbrev pub connection : ConnectionIr
connection = record { url = "http://radarr:7878"; api_key = ""; insecure_skip_verify = false }
