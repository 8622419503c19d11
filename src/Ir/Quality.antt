-- ===== src/Ir/Quality.antt =====
-- internal/ir/v1/quality.go: quality, custom format and metadata profiles.
use nebularr_operator.Common.{String, Bool, ℤ, Option, List}
use nebularr_operator.Common.Dict.{Dict}
use nebularr_operator.Ir.Values.{Float64}

pub record VideoQualityTierIr : Type 0 where
  pub resolution : String
  pub sources : List String
  pub allowed : Bool

pub record FormatSpecIr : Type 0 where
  pub type : String
  pub name : String
  pub negate : Bool
  pub required : Bool
  pub value : String

pub record CustomFormatIr : Type 0 where
  pub id : ℤ
  pub name : String
  pub include_when_renaming : Bool
  pub specifications : List FormatSpecIr

pub record VideoQualityIr : Type 0 where
  pub profile_name : String
  pub upgrade_allowed : Bool
  pub cutoff : VideoQualityTierIr
  pub tiers : List VideoQualityTierIr
  pub custom_formats : List CustomFormatIr
  pub format_scores : Dict String ℤ
  pub minimum_custom_format_score : ℤ
  pub upgrade_until_custom_format_score : ℤ

pub record AudioQualityTierIr : Type 0 where
  pub tier : String
  pub allowed : Bool

pub record PreferredTermIr : Type 0 where
  pub term : String
  pub score : ℤ

pub record ReleaseProfileIr : Type 0 where
  pub id : Option ℤ
  pub name : String
  pub enabled : Bool
  pub required : List String
  pub ignored : List String
  pub preferred : List PreferredTermIr
  pub include_preferred_when_renaming : Bool
  pub indexer_id : ℤ
  pub tags : List ℤ

pub record AudioQualityIr : Type 0 where
  pub profile_name : String
  pub upgrade_allowed : Bool
  pub cutoff : String
  pub tiers : List AudioQualityTierIr
  pub release_profile : Option ReleaseProfileIr
  pub format_scores : Dict String ℤ
  pub minimum_custom_format_score : ℤ
  pub upgrade_until_custom_format_score : ℤ

pub record BookQualityTierIr : Type 0 where
  pub name : String
  pub formats : List String
  pub allowed : Bool

pub record BookQualityIr : Type 0 where
  pub profile_name : String
  pub upgrade_allowed : Bool
  pub cutoff : BookQualityTierIr
  pub tiers : List BookQualityTierIr

pub record MetadataProfileIr : Type 0 where
  pub id : Option ℤ
  pub name : String
  pub min_popularity : Float64
  pub skip_missing_date : Bool
  pub skip_missing_isbn : Bool
  pub skip_parts_and_sets : Bool
  pub skip_series_secondary : Bool
  pub allowed_languages : String

pub record QualityIr : Type 0 where
  pub video : Option VideoQualityIr
  pub audio : Option AudioQualityIr
  pub book : Option BookQualityIr
