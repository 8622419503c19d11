-- ===== src/Diff/Paths/Laws.antt =====
-- The diff of remote path mappings brings the service to the desired state, and stays there.
use nebularr_operator.Common.{
  ◌==◌, int_eq, false, String, ◌≡◌, refl, arith, Option, none, some, List, string_eq,
}
use nebularr_operator.Common.Dict.{lookup}
use nebularr_operator.Common.Range.{RangeOrder}
use nebularr_operator.Ir.{RemotePathMappingIr}
use nebularr_operator.Changes.{ChangeSet, Payload, remote_path_mapping, empty_changes}
use nebularr_operator.Diff.Keyed.{index}
use nebularr_operator.Diff.Keyed.Service.{same_id, Reading, IsReadBy, serve, settled}
use nebularr_operator.Diff.Keyed.Converge.{lookup-serve-diff_keyed, diff_keyed-settled}
use nebularr_operator.Diff.Paths.{mapping_key, remote_path_mappings, diff_remote_path_mappings}

abbrev mapping_of : Option Payload → Option RemotePathMappingIr
mapping_of (some (remote_path_mapping m)) = some m
mapping_of _ = none

-- The service finds a mapping by the host and the remote path of the payload, and an update keeps
-- the id that the mapping has.
abbrev pub mapping_reading : Reading RemotePathMappingIr
mapping_reading = record {
  target = λ c. elim (mapping_of c.payload) [ none ↦ c.name | some m ↦ mapping_key m ];
  payload = λ c. mapping_of c.payload;
  finds_updated = λ c a. elim (mapping_of c.payload) [ none ↦ false | some m ↦ m.id == a.id ];
  finds_deleted = λ c a. same_id c.id a.id;
  sent = λ c d. record d { id = c.id };
}

mapping-IsReadBy : IsReadBy remote_path_mappings mapping_reading
unfolding mapping_key
mapping-IsReadBy = record {
  target-create = λ d. refl;
  payload-create = λ d. refl;
  target-update = λ c d. refl;
  payload-update = λ c d. refl;
  finds-update = λ c d. ground arith;
  target-delete = λ c. refl;
  finds-delete = λ c. ground arith;
}

abbrev pub settled_mapping :
    Option RemotePathMappingIr → Option RemotePathMappingIr → Option RemotePathMappingIr
settled_mapping = settled remote_path_mappings mapping_reading

-- There is a mapping exactly if one is wanted, with the wanted local path, and the id of one that was there.
abbrev pub IsAsWanted :
    Option RemotePathMappingIr → Option RemotePathMappingIr → Option RemotePathMappingIr → Type 0
IsAsWanted found before none = found ≡ none
IsAsWanted found none (some d) = found ≡ some d
IsAsWanted found (some c) (some d) =
    (m : RemotePathMappingIr) × (found ≡ some m) × (m.local_path ≡ d.local_path) × (m.id ≡ c.id)

abbrev pub mapping_at : String → List RemotePathMappingIr → Option RemotePathMappingIr
mapping_at key mappings = lookup key (index remote_path_mappings mappings)

module _ (od oc : RangeOrder (String × RemotePathMappingIr)) where
  -- What a service has at each host and path after it carried out the change set.
  pub mappings_settled :
      (current desired : List RemotePathMappingIr) (key : String)
      → lookup key (
          serve mapping_reading
            (diff_remote_path_mappings od oc current desired empty_changes)
            (index remote_path_mappings current))
        ≡ settled_mapping (mapping_at key current) (mapping_at key desired)
  unfolding diff_remote_path_mappings
  mappings_settled current desired key =
      lookup-serve-diff_keyed remote_path_mappings mapping_reading od oc mapping-IsReadBy current
        desired key

  -- If the service reports under each key the mapping that a reconciliation leaves there (none if none
  -- is wanted, the one that was there if it has the wanted local path, and else the wanted one, under
  -- the id of the one that was there), a further diff adds no change.
  pub mappings_stable :
      (current desired after : List RemotePathMappingIr)
      → ((key : String)
          → mapping_at key after
            ≡ settled_mapping (mapping_at key current) (mapping_at key desired))
      → (changes : ChangeSet) → diff_remote_path_mappings od oc after desired changes ≡ changes
  unfolding diff_remote_path_mappings
  mappings_stable current desired after h changes =
      diff_keyed-settled remote_path_mappings mapping_reading od oc current desired after
        (λ _ d _. ground arith) (λ _ c d _. ground arith) h changes
