-- ===== src/Diff/Paths.antt =====
-- Remote path mappings (internal/adapters/shared/remotepathmappings.go), found by host and path.
pub mod Laws
use nebularr_operator.Common.{String, ◌<>◌, ◌==◌, string_eq, ℤ, Option, none, some, List}
use nebularr_operator.Common.Range.{RangeOrder}
use nebularr_operator.Ir.{RemotePathMappingIr}
use nebularr_operator.Changes.{
  Change, ChangeSet, Payload, remote_path_mapping, resource_remote_path_mapping,
}
use nebularr_operator.Diff.Keyed.{Keyed, diff_keyed}

unfoldable pub mapping_key : RemotePathMappingIr → String
mapping_key m = m.host <> "|" <> m.remote_path

abbrev mapping_change : Option ℤ → RemotePathMappingIr → RemotePathMappingIr → Change
mapping_change id shown sent = record {
  resource_type = resource_remote_path_mapping;
  name = shown.remote_path <> " -> " <> shown.local_path;
  id = id;
  payload = some (remote_path_mapping sent);
}

abbrev pub remote_path_mappings : Keyed RemotePathMappingIr
remote_path_mappings = record {
  key = mapping_key;
  equal = λ c d. c.local_path == d.local_path;
  create = λ _ d. mapping_change none d d;
  update = λ _ c d. mapping_change (some c.id) d (record d { id = c.id });
  delete = λ _ c. mapping_change (some c.id) c c;
}

unfoldable pub diff_remote_path_mappings :
    RangeOrder (String × RemotePathMappingIr)
    → RangeOrder (String × RemotePathMappingIr)
    → List RemotePathMappingIr
    → List RemotePathMappingIr
    → ChangeSet
    → ChangeSet
unfolding diff_keyed mapping_key
diff_remote_path_mappings over_desired over_current current desired changes =
    diff_keyed remote_path_mappings over_desired over_current current desired changes
