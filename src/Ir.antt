-- ===== src/Ir.antt =====
-- internal/ir/v1: the intermediate representation between the custom resources and the services.
-- Pointers are options, slices are lists, and maps are dicts.
pub mod Values
pub mod Quality
pub mod Resources
pub mod Settings
pub mod Prowlarr
pub use Values.*
pub use Quality.*
pub use Resources.*
pub use Settings.*
pub use Prowlarr.*
use nebularr_operator.Common.{ℕ, String, Option, List}

pub record Ir : Type 0 where
  pub version : String
  pub generated_at : ℕ
  pub source_hash : String
  pub app : String
  pub connection : Option ConnectionIr
  pub quality : Option QualityIr
  pub download_clients : List DownloadClientIr
  pub remote_path_mappings : List RemotePathMappingIr
  pub indexers : Option IndexersIr
  pub naming : Option NamingIr
  pub root_folders : List RootFolderIr
  pub import_lists : List ImportListIr
  pub notifications : List NotificationIr
  pub custom_formats : List CustomFormatIr
  pub delay_profiles : List DelayProfileIr
  pub release_profiles : List ReleaseProfileIr
  pub metadata_profiles : List (Option MetadataProfileIr)
  pub media_management : Option MediaManagementIr
  pub authentication : Option AuthenticationIr
  pub prowlarr : Option ProwlarrIr
  pub unrealized : List UnrealizedFeature
