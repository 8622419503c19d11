-- ===== src/Ir/Prowlarr.antt =====
-- internal/ir/v1/prowlarr.go.
use nebularr_operator.Common.{String, Bool, ℤ, Option, List}
use nebularr_operator.Common.Dict.{Dict}
use nebularr_operator.Ir.Resources.{ConnectionIr, DownloadClientIr}

pub record UnrealizedFeature : Type 0 where
  pub feature : String
  pub reason : String

pub record ProwlarrIndexerIr : Type 0 where
  pub name : String
  pub definition : String
  pub enable : Bool
  pub priority : ℤ
  pub base_url : String
  pub api_key : String
  pub settings : Dict String String
  pub tags : List String

pub record IndexerProxyIr : Type 0 where
  pub name : String
  pub type : String
  pub host : String
  pub port : ℤ
  pub username : String
  pub password : String
  pub request_timeout : ℤ
  pub tags : List String

pub record ProwlarrApplicationIr : Type 0 where
  pub name : String
  pub type : String
  pub prowlarr_url : String
  pub url : String
  pub api_key : String
  pub sync_categories : List ℤ
  pub sync_level : String
  pub tags : List String

pub record ProwlarrIr : Type 0 where
  pub connection : Option ConnectionIr
  pub indexers : List ProwlarrIndexerIr
  pub proxies : List IndexerProxyIr
  pub applications : List ProwlarrApplicationIr
  pub download_clients : List DownloadClientIr
  pub unrealized : List UnrealizedFeature
