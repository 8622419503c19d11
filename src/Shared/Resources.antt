-- ===== src/Shared/Resources.antt =====
-- internal/adapters/shared/resources.go, and the resources of download clients and indexers of
-- internal/adapters/sonarr and lidarr, which differ in few names.
pub mod Laws
pub mod Converge
use nebularr_operator.Common.{
  ℕ, String, ◌<>◌, string_eq, int_eq, ◌==◌, if◌then◌else◌, Bool, true, false, ℤ, pos, contains,
  Option, none, some, List, [], ◌∷◌, ◌++◌,
}
use nebularr_operator.Ir.{Any, Anys, Float64, of_int, DownloadClientIr, IndexerIr}
use nebularr_operator.Prowlarr.{ints}
use nebularr_operator.Shared.Fields.{Field, extract_download_client_fields, extract_indexer_fields}

pub record DownloadClientResource : Type 0 where
  pub id : ℤ
  pub name : String
  pub implementation : String
  pub config_contract : String
  pub protocol : String
  pub enable : Bool
  pub priority : ℤ
  pub tags : List ℤ
  pub fields : List Field
  pub remove_completed_downloads : Bool
  pub remove_failed_downloads : Bool

-- Sonarr has one more field, which is left at 0.
pub record IndexerResource : Type 0 where
  pub id : ℤ
  pub name : String
  pub implementation : String
  pub config_contract : String
  pub protocol : String
  pub enable : Bool
  pub priority : ℤ
  pub tags : List ℤ
  pub fields : List Field
  pub enable_rss : Bool
  pub enable_automatic_search : Bool
  pub enable_interactive_search : Bool

-- Where the two services differ: the field of the category, and whether the seeders of an indexer are sent.
pub record Service : Type 0 where
  pub category_field : String
  pub sends_seeders : Bool

abbrev pub sonarr : Service
sonarr = record { category_field = "tvCategory"; sends_seeders = true }

abbrev pub lidarr : Service
lidarr = record { category_field = "musicCategory"; sends_seeders = false }

-- `HasTag`
unfoldable pub has_tag : List ℤ → ℤ → Bool
has_tag [] tag_id = false
has_tag (t ∷ tags) tag_id = let rest = has_tag tags tag_id in if t == tag_id then true else rest

module _ (service : Service) where
  abbrev pub download_client_from_ir : DownloadClientIr → ℤ → DownloadClientResource
  download_client_from_ir dc tag_id = record {
    id = pos 0;
    name = dc.name;
    implementation = dc.implementation;
    config_contract = dc.implementation <> "Settings";
    protocol = dc.protocol;
    enable = dc.enable;
    priority = dc.priority;
    tags = tag_id ∷ [];
    fields =
        record { name = "host"; value = Any.text dc.host }
        ∷ record { name = "port"; value = Any.number (of_int dc.port) }
        ∷ record { name = "useSsl"; value = Any.flag dc.use_tls }
        ∷ record { name = "username"; value = Any.text dc.username }
        ∷ record { name = "password"; value = Any.text dc.password }
        ∷ record { name = service.category_field; value = Any.text dc.category }
        ∷ [];
    remove_completed_downloads = dc.remove_completed_downloads;
    remove_failed_downloads = dc.remove_failed_downloads;
  }

  unfoldable pub indexer_from_ir : IndexerIr → ℤ → IndexerResource
  unfolding ints
  indexer_from_ir idx tag_id = record {
    id = pos 0;
    name = idx.name;
    implementation = idx.implementation;
    config_contract = idx.implementation <> "Settings";
    protocol = idx.protocol;
    enable = idx.enable;
    priority = idx.priority;
    tags = tag_id ∷ [];
    fields =
        record { name = "baseUrl"; value = Any.text idx.url }
        ∷ record { name = "apiKey"; value = Any.text idx.api_key }
        ∷ record { name = "categories"; value = Any.array (ints idx.categories) }
        ∷ (if service.sends_seeders
            then record { name = "minimumSeeders"; value = Any.number (of_int idx.minimum_seeders) }
              ∷ []
            else []);
    enable_rss = idx.enable_rss;
    enable_automatic_search = idx.enable_automatic_search;
    enable_interactive_search = idx.enable_interactive_search;
  }

module _ (service : Service) (to_int : Float64 → ℤ) where
  unfoldable pub client_to_ir : DownloadClientResource → DownloadClientIr
  unfolding extract_download_client_fields
  client_to_ir dc =
      extract_download_client_fields to_int ("category" ∷ service.category_field ∷ []) dc.fields
        (record {
          id = dc.id;
          name = dc.name;
          protocol = dc.protocol;
          implementation = dc.implementation;
          enable = dc.enable;
          priority = dc.priority;
          remove_completed_downloads = dc.remove_completed_downloads;
          remove_failed_downloads = dc.remove_failed_downloads;
          host = "";
          port = pos 0;
          use_tls = false;
          username = "";
          password = "";
          category = "";
          directory = "";
        })

  unfoldable pub indexer_to_ir : IndexerResource → IndexerIr
  unfolding extract_indexer_fields
  indexer_to_ir idx = extract_indexer_fields to_int idx.fields (record {
    id = idx.id;
    name = idx.name;
    protocol = idx.protocol;
    implementation = idx.implementation;
    enable = idx.enable;
    priority = idx.priority;
    url = "";
    api_key = "";
    categories = [];
    minimum_seeders = pos 0;
    seed_ratio = of_int (pos 0);
    seed_time_minutes = pos 0;
    enable_rss = idx.enable_rss;
    enable_automatic_search = idx.enable_automatic_search;
    enable_interactive_search = idx.enable_interactive_search;
  })

  -- What a GET answers, less what has not the tag.
  unfoldable pub managed_download_clients : List DownloadClientResource → ℤ → List DownloadClientIr
  unfolding has_tag client_to_ir
  managed_download_clients [] tag_id = []
  managed_download_clients (dc ∷ clients) tag_id =
      let rest = managed_download_clients clients tag_id in
      if has_tag dc.tags tag_id then client_to_ir dc ∷ rest else rest

  unfoldable pub managed_indexers : List IndexerResource → ℤ → List IndexerIr
  unfolding has_tag indexer_to_ir
  managed_indexers [] tag_id = []
  managed_indexers (idx ∷ indexers) tag_id =
      let rest = managed_indexers indexers tag_id in
      if has_tag idx.tags tag_id then indexer_to_ir idx ∷ rest else rest
