-- ===== src/Diff/Profiles.antt =====
-- Quality profiles and root folders (internal/adapters/diff.go).
pub mod Laws
use nebularr_operator.Common.{
  String, contains, string_eq, if◌then◌else◌, ℤ, Option, none, some, List, [], ◌∷◌, map,
}
use nebularr_operator.Ir.{VideoQualityIr, AudioQualityIr, BookQualityIr, RootFolderIr}
use nebularr_operator.Changes.{
  Change, ChangeSet, Payload, video_quality, audio_quality, book_quality, root_folder, add_create,
  add_delete, resource_quality_profile, resource_root_folder,
}

abbrev pub quality_change : String → Option ℤ → Option Payload → Change
quality_change name id payload = record {
  resource_type = resource_quality_profile;
  name = name;
  id = id;
  payload = payload;
}

-- Nothing is done if both profiles are there, and no delete is written without an id.
unfoldable pub diff_video_quality_profiles :
    Option VideoQualityIr → Option VideoQualityIr → Option ℤ → ChangeSet → ChangeSet
diff_video_quality_profiles none none profile_id changes = changes
diff_video_quality_profiles (some current) none none changes = changes
diff_video_quality_profiles (some current) none (some id) changes =
    add_delete (quality_change current.profile_name (some id) none) changes
diff_video_quality_profiles none (some desired) profile_id changes =
    add_create (quality_change desired.profile_name none (some (video_quality desired))) changes
diff_video_quality_profiles (some current) (some desired) profile_id changes = changes

unfoldable pub diff_quality_profiles :
    Option VideoQualityIr → Option VideoQualityIr → Option ℤ → ChangeSet → ChangeSet
unfolding diff_video_quality_profiles
diff_quality_profiles = diff_video_quality_profiles

unfoldable pub diff_audio_quality_profiles :
    Option AudioQualityIr → Option AudioQualityIr → Option ℤ → ChangeSet → ChangeSet
diff_audio_quality_profiles none none profile_id changes = changes
diff_audio_quality_profiles (some current) none none changes = changes
diff_audio_quality_profiles (some current) none (some id) changes =
    add_delete (quality_change current.profile_name (some id) none) changes
diff_audio_quality_profiles none (some desired) profile_id changes =
    add_create (quality_change desired.profile_name none (some (audio_quality desired))) changes
diff_audio_quality_profiles (some current) (some desired) profile_id changes = changes

unfoldable pub diff_book_quality_profiles :
    Option BookQualityIr → Option BookQualityIr → ChangeSet → ChangeSet
diff_book_quality_profiles current none changes = changes
diff_book_quality_profiles none (some desired) changes =
    add_create (quality_change desired.profile_name none (some (book_quality desired))) changes
diff_book_quality_profiles (some current) (some desired) changes = changes

-- The payload has the path alone: the monitoring defaults of Lidarr's folders are dropped.
abbrev pub folder_of : String → RootFolderIr
folder_of path = record { path = path; name = ""; default_monitor = "" }

abbrev pub folder_change : String → Change
folder_change path = record {
  resource_type = resource_root_folder;
  name = path;
  id = none;
  payload = some (root_folder (folder_of path));
}

abbrev pub paths : List RootFolderIr → List String
paths folders = map (λ (f : RootFolderIr). f.path) folders

unfoldable pub create_folders : List String → List RootFolderIr → ChangeSet → ChangeSet
create_folders current_paths [] changes = changes
create_folders current_paths (folder ∷ desired) changes = create_folders current_paths desired (
    if contains current_paths folder.path
    then changes
    else add_create (folder_change folder.path) changes)

unfoldable pub diff_root_folders : List RootFolderIr → List RootFolderIr → ChangeSet → ChangeSet
unfolding create_folders
diff_root_folders current desired changes = create_folders (paths current) desired changes
