-- ===== src/Api/Kinds.antt =====
-- api/v1alpha1: the specifications of the kinds. Of an object, its name and its namespace are kept beside its
-- specification. A list whose being nil is tested is optional.
use nebularr_operator.Common.{String, Bool, ℤ, Option, List}
use nebularr_operator.Api.{
  ConnectionSpec, DownloadClientSpec, IndexersSpec, ImportListSpec, AuthenticationSpec,
  ReconciliationSpec, ProwlarrIndexer, IndexerProxy, ProwlarrApplication,
}
use nebularr_operator.Api.Specs.{
  VideoQualitySpec, AudioQualitySpec, RemotePathMappingSpec, NamingSpec, MediaManagementSpec,
  CustomFormatSpec, DelayProfileSpec, NotificationSpec, ReleaseProfileSpec,
}

pub record RadarrConfigSpec : Type 0 where
  pub connection : ConnectionSpec
  pub quality : Option VideoQualitySpec
  pub download_clients : List DownloadClientSpec
  pub remote_path_mappings : List RemotePathMappingSpec
  pub indexers : Option IndexersSpec
  pub naming : Option NamingSpec
  pub root_folders : List String
  pub import_lists : List ImportListSpec
  pub media_management : Option MediaManagementSpec
  pub authentication : Option AuthenticationSpec
  pub notifications : List NotificationSpec
  pub custom_formats : List CustomFormatSpec
  pub delay_profiles : List DelayProfileSpec
  pub reconciliation : Option ReconciliationSpec

pub record RadarrConfig : Type 0 where
  pub name : String
  pub namespace : String
  pub spec : RadarrConfigSpec

pub record SonarrNamingSpec : Type 0 where
  pub naming_spec : NamingSpec
  pub season_folder_format : String
  pub daily_episode_format : String
  pub anime_episode_format : String

pub record SonarrConfigSpec : Type 0 where
  pub connection : ConnectionSpec
  pub quality : Option VideoQualitySpec
  pub download_clients : List DownloadClientSpec
  pub remote_path_mappings : List RemotePathMappingSpec
  pub indexers : Option IndexersSpec
  pub naming : Option SonarrNamingSpec
  pub root_folders : List String
  pub import_lists : List ImportListSpec
  pub media_management : Option MediaManagementSpec
  pub authentication : Option AuthenticationSpec
  pub notifications : List NotificationSpec
  pub custom_formats : List CustomFormatSpec
  pub delay_profiles : List DelayProfileSpec
  pub release_profiles : List ReleaseProfileSpec
  pub reconciliation : Option ReconciliationSpec

pub record SonarrConfig : Type 0 where
  pub name : String
  pub namespace : String
  pub spec : SonarrConfigSpec

pub record MetadataProfileSpec : Type 0 where
  pub primary_types : List String
  pub secondary_types : List String
  pub release_statuses : List String

pub record LidarrRootFolder : Type 0 where
  pub path : String
  pub name : String
  pub default_monitor : String

pub record LidarrNamingSpec : Type 0 where
  pub naming_spec : NamingSpec
  pub artist_folder_format : String
  pub album_folder_format : String

pub record LidarrConfigSpec : Type 0 where
  pub connection : ConnectionSpec
  pub quality : Option AudioQualitySpec
  pub metadata : Option MetadataProfileSpec
  pub download_clients : List DownloadClientSpec
  pub remote_path_mappings : List RemotePathMappingSpec
  pub indexers : Option IndexersSpec
  pub naming : Option LidarrNamingSpec
  pub root_folders : List LidarrRootFolder
  pub import_lists : List ImportListSpec
  pub media_management : Option MediaManagementSpec
  pub authentication : Option AuthenticationSpec
  pub notifications : List NotificationSpec
  pub custom_formats : List CustomFormatSpec
  pub delay_profiles : List DelayProfileSpec
  pub reconciliation : Option ReconciliationSpec

pub record LidarrConfig : Type 0 where
  pub name : String
  pub namespace : String
  pub spec : LidarrConfigSpec

pub record ReadarrMetadataProfileSpec : Type 0 where
  pub name : String
  pub min_popularity : ℤ
  pub skip_missing_date : Option Bool
  pub skip_missing_isbn : Option Bool
  pub skip_parts_and_sets : Option Bool
  pub skip_series_secondary : Option Bool
  pub allowed_languages : List String

pub record ReadarrFormatSpec : Type 0 where
  pub format : String
  pub allowed : Bool

pub record ReadarrQualitySpec : Type 0 where
  pub preset : String
  pub allowed_formats : Option (List ReadarrFormatSpec)
  pub upgrade_allowed : Option Bool
  pub cutoff : String

pub record ReadarrNamingSpec : Type 0 where
  pub naming_spec : NamingSpec
  pub author_folder_format : String
  pub standard_book_format : String
  pub colon_replacement_format : String

pub record ReadarrConfigSpec : Type 0 where
  pub connection : ConnectionSpec
  pub quality : Option ReadarrQualitySpec
  pub metadata_profile : Option ReadarrMetadataProfileSpec
  pub download_clients : List DownloadClientSpec
  pub remote_path_mappings : List RemotePathMappingSpec
  pub indexers : Option IndexersSpec
  pub naming : Option ReadarrNamingSpec
  pub root_folders : List String
  pub import_lists : List ImportListSpec
  pub media_management : Option MediaManagementSpec
  pub authentication : Option AuthenticationSpec
  pub notifications : List NotificationSpec
  pub reconciliation : Option ReconciliationSpec

pub record ReadarrConfig : Type 0 where
  pub name : String
  pub namespace : String
  pub spec : ReadarrConfigSpec

pub record ProwlarrConfigSpec : Type 0 where
  pub connection : ConnectionSpec
  pub indexers : List ProwlarrIndexer
  pub proxies : List IndexerProxy
  pub applications : List ProwlarrApplication
  pub download_clients : List DownloadClientSpec
  pub authentication : Option AuthenticationSpec
  pub reconciliation : Option ReconciliationSpec

pub record ProwlarrConfig : Type 0 where
  pub name : String
  pub namespace : String
  pub spec : ProwlarrConfigSpec
