-- ===== src/Api.antt =====
-- api/v1alpha1: the parts of the custom resources that the controllers read and write here.
-- A duration is its nanoseconds.
pub mod Specs
pub mod Kinds
use nebularr_operator.Common.{ℕ, String, Bool, ℤ, Option, List}
use nebularr_operator.Common.Dict.{Dict}

pub record SecretKeySelector : Type 0 where
  pub name : String
  pub key : String

pub record CredentialsSecretRef : Type 0 where
  pub name : String
  pub username_key : String
  pub password_key : String

pub record ConnectionSpec : Type 0 where
  pub url : String
  pub api_key_secret_ref : Option SecretKeySelector
  pub config_path : String
  pub insecure_skip_verify : Bool
  pub timeout : Option ℤ

pub record DownloadClientSpec : Type 0 where
  pub name : String
  pub url : String
  pub type : String
  pub credentials_secret_ref : Option CredentialsSecretRef
  pub category : String
  pub priority : ℤ
  pub enabled : Option Bool
  pub remove_completed_downloads : Option Bool
  pub remove_failed_downloads : Option Bool

pub record DirectIndexer : Type 0 where
  pub name : String
  pub url : String
  pub type : String
  pub api_key_secret_ref : Option SecretKeySelector
  pub categories : List String
  pub priority : ℤ
  pub enabled : Option Bool

pub record ProwlarrRef : Type 0 where
  pub name : String
  pub auto_register : Option Bool
  pub include : List String
  pub exclude : List String

pub record IndexersSpec : Type 0 where
  pub prowlarr_ref : Option ProwlarrRef
  pub direct : List DirectIndexer

pub record ImportListSpec : Type 0 where
  pub name : String
  pub type : String
  pub enabled : Option Bool
  pub enable_auto : Option Bool
  pub search_on_add : Option Bool
  pub quality_profile : String
  pub root_folder : String
  pub monitor : String
  pub minimum_availability : String
  pub series_type : String
  pub season_folder : Option Bool
  pub should_monitor : String
  pub settings : Dict String String
  pub settings_secret_ref : Option SecretKeySelector

pub record AuthenticationSpec : Type 0 where
  pub method : String
  pub username : String
  pub password_secret_ref : Option SecretKeySelector
  pub authentication_required : String

pub record ProwlarrIndexer : Type 0 where
  pub name : String
  pub definition : String
  pub base_url : String
  pub settings : Dict String String
  pub api_key_secret_ref : Option SecretKeySelector
  pub tags : List String
  pub priority : ℤ
  pub enabled : Option Bool

pub record IndexerProxy : Type 0 where
  pub name : String
  pub type : String
  pub host : String
  pub port : ℤ
  pub credentials_secret_ref : Option CredentialsSecretRef
  pub request_timeout : ℤ
  pub tags : List String

pub record ProwlarrApplication : Type 0 where
  pub name : String
  pub type : String
  pub url : String
  pub api_key_secret_ref : Option SecretKeySelector
  pub config_path : String
  pub sync_categories : List String
  pub sync_level : String

pub record ReconciliationSpec : Type 0 where
  pub interval : Option ℤ
  pub suspend : Bool

pub record HealthIssueStatus : Type 0 where
  pub source : String
  pub type : String
  pub message : String
  pub wiki_url : String

-- `HealthStatus`; the time is that of the last check.
pub record ReportedHealth : Type 0 where
  pub healthy : Bool
  pub issue_count : ℕ
  pub error_count : ℕ
  pub warning_count : ℕ
  pub last_check : Option ℕ
  pub issues : List HealthIssueStatus

pub record ProwlarrRegistration : Type 0 where
  pub registered : Bool
  pub prowlarr_name : String
  pub application_id : Option ℤ
  pub last_sync : Option ℕ
  pub synced_indexers : List String
  pub message : String
