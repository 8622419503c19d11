-- ===== src/Changes/Types.antt =====
-- internal/adapters/adapter.go: change sets and the result of applying them.
-- An error is its message. `Payload` lists the values that the diffs put behind `interface{}`.
use nebularr_operator.Common.{ℕ, zero, suc, ◌+◌, String, Bool, true, false, ℤ, Option, List}
use nebularr_operator.Common.{[], ◌∷◌, ◌++◌, ◌&&◌, length}
use nebularr_operator.Ir.{
  VideoQualityIr, AudioQualityIr, BookQualityIr, DownloadClientIr, CustomFormatIr, IndexerIr,
  RootFolderIr, RemotePathMappingIr, DelayProfileIr,
}

pub data Payload : Type 0 where
  video_quality : VideoQualityIr → Payload
  audio_quality : AudioQualityIr → Payload
  book_quality : BookQualityIr → Payload
  download_client : DownloadClientIr → Payload
  custom_format : CustomFormatIr → Payload
  indexer : IndexerIr → Payload
  root_folder : RootFolderIr → Payload
  remote_path_mapping : RemotePathMappingIr → Payload
  delay_profile : DelayProfileIr → Payload

pub record Change : Type 0 where
  pub resource_type : String
  pub name : String
  pub id : Option ℤ
  pub payload : Option Payload

pub record ChangeSet : Type 0 where
  pub creates : List Change
  pub updates : List Change
  pub deletes : List Change

abbrev pub empty_changes : ChangeSet
empty_changes = record { creates = []; updates = []; deletes = [] }

-- `len(l) == 0`
abbrev pub is_nil {ℓ} : {A : Type ℓ} → List A → Bool
is_nil [] = true
is_nil (_ ∷ _) = false

unfoldable pub is_empty : ChangeSet → Bool
is_empty cs = is_nil cs.creates && is_nil cs.updates && is_nil cs.deletes

unfoldable pub total_changes : ChangeSet → ℕ
total_changes cs = length cs.creates + length cs.updates + length cs.deletes

-- `cs.Creates = append(cs.Creates, c)`, and the same for the other two.
abbrev pub add_create : Change → ChangeSet → ChangeSet
add_create c cs = record cs { creates = cs.creates ++ c ∷ [] }

abbrev pub add_update : Change → ChangeSet → ChangeSet
add_update c cs = record cs { updates = cs.updates ++ c ∷ [] }

abbrev pub add_delete : Change → ChangeSet → ChangeSet
add_delete c cs = record cs { deletes = cs.deletes ++ c ∷ [] }

pub record ApplyError : Type 0 where
  pub change : Change
  pub error : String

pub record ApplyResult : Type 0 where
  pub applied : ℕ
  pub failed : ℕ
  pub skipped : ℕ
  pub errors : List ApplyError

abbrev pub no_result : ApplyResult
no_result = record { applied = 0; failed = 0; skipped = 0; errors = [] }

is_zero : ℕ → Bool
is_zero zero = true
is_zero (suc _) = false

unfoldable pub success : ApplyResult → Bool
unfolding is_zero
success ar = is_zero ar.failed && is_nil ar.errors

abbrev pub resource_quality_profile : String
resource_quality_profile = "QualityProfile"

abbrev pub resource_custom_format : String
resource_custom_format = "CustomFormat"

abbrev pub resource_download_client : String
resource_download_client = "DownloadClient"

abbrev pub resource_indexer : String
resource_indexer = "Indexer"

abbrev pub resource_root_folder : String
resource_root_folder = "RootFolder"

abbrev pub resource_import_list : String
resource_import_list = "ImportList"

abbrev pub resource_media_management : String
resource_media_management = "MediaManagement"

abbrev pub resource_authentication : String
resource_authentication = "Authentication"

abbrev pub resource_remote_path_mapping : String
resource_remote_path_mapping = "RemotePathMapping"

abbrev pub resource_delay_profile : String
resource_delay_profile = "DelayProfile"
