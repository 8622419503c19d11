-- ===== src/Diff/Indexers/Laws.antt =====
-- The diff of indexers brings the service to the desired state, and stays there.
use nebularr_operator.Common.{
  String, true, ◌≡◌, refl, arith, Option, none, some, List, string_eq, bool_eq, int_eq, ℤ,
}
use nebularr_operator.Common.Dict.{Dict, lookup}
use nebularr_operator.Common.Range.{RangeOrder}
use nebularr_operator.Ir.{IndexerIr}
use nebularr_operator.Changes.{ChangeSet, Payload, indexer, empty_changes}
use nebularr_operator.Diff.Keyed.{index}
use nebularr_operator.Diff.Keyed.Agree.{diff_keyed-relabelled}
use nebularr_operator.Diff.Keyed.Service.{same_id, Reading, IsReadBy, serve, settled}
use nebularr_operator.Diff.Keyed.Addresses.{IsLabelled, IsAddressed, diff_keyed-IsAddressed}
use nebularr_operator.Diff.Keyed.Converge.{lookup-serve-diff_keyed, diff_keyed-settled}
use nebularr_operator.Diff.Indexers.{
  indexers, indexers_equal, diff_indexers_with_ir, diff_indexers, indexers_by_map,
}

abbrev indexer_of : Option Payload → Option IndexerIr
indexer_of (some (indexer d)) = some d
indexer_of _ = none

-- The service finds an indexer by its name, and stores what it is sent.
abbrev pub indexer_reading : Reading IndexerIr
indexer_reading = record {
  target = λ c. c.name;
  payload = λ c. indexer_of c.payload;
  finds_updated = λ c a. same_id c.id a.id;
  finds_deleted = λ c a. same_id c.id a.id;
  sent = λ _ d. d;
}

indexer-IsReadBy : IsReadBy indexers indexer_reading
indexer-IsReadBy = record {
  target-create = λ d. refl;
  payload-create = λ d. refl;
  target-update = λ c d. refl;
  payload-update = λ c d. refl;
  finds-update = λ c d. ground arith;
  target-delete = λ c. refl;
  finds-delete = λ c. ground arith;
}

indexers_equal_refl : (d : IndexerIr) → indexers_equal d d ≡ true
unfolding indexers_equal
indexers_equal_refl d = ground arith

indexer-IsLabelled : IsLabelled indexers (λ c. some c.id)
indexer-IsLabelled = record {
  create = λ n d. (refl, refl);
  update = λ n c d. (refl, refl);
  delete = λ n c. (refl, refl);
}

abbrev pub settled_indexer : Option IndexerIr → Option IndexerIr → Option IndexerIr
settled_indexer = settled indexers indexer_reading

abbrev pub indexer_named : String → List IndexerIr → Option IndexerIr
indexer_named name items = lookup name (index indexers items)

module _ (od oc : RangeOrder (String × IndexerIr)) where
  -- A service that holds the current indexers by name, and carries out the change set that
  -- `DiffIndexersWithIR` writes, has under each name: nothing, if no indexer of that name is
  -- wanted; the current indexer, if it equals the wanted one; and else the wanted one. That holds in
  -- whatever order Go visits the two maps.
  pub indexers_reconciled :
      (current desired : List IndexerIr) (name : String)
      → lookup name (
          serve indexer_reading
            (diff_indexers_with_ir od oc current desired empty_changes)
            (index indexers current))
        ≡ settled_indexer (indexer_named name current) (indexer_named name desired)
  unfolding diff_indexers_with_ir
  indexers_reconciled current desired name =
      lookup-serve-diff_keyed indexers indexer_reading od oc indexer-IsReadBy current desired name

  -- If the service reports under each name the indexer that a reconciliation leaves there (none if none
  -- is wanted, the one that was there if it equals the wanted one, and else the wanted one), a further
  -- diff adds no change.
  pub indexers_stable :
      (current desired after : List IndexerIr)
      → ((name : String)
          → indexer_named name after
            ≡ settled_indexer (indexer_named name current) (indexer_named name desired))
      → (changes : ChangeSet) → diff_indexers_with_ir od oc after desired changes ≡ changes
  unfolding diff_indexers_with_ir
  indexers_stable current desired after h changes =
      diff_keyed-settled indexers indexer_reading od oc current desired after
        (λ _ d _. indexers_equal_refl d) (λ _ _ d _. indexers_equal_refl d) h changes

  -- Creates are of names that the service lacks and have no id; updates and deletes name a current
  -- indexer and have its id; and a deleted name is not wanted.
  pub indexers-IsAddressed :
      (current desired : List IndexerIr)
      → IsAddressed
          (λ c. some c.id)
          (index indexers current)
          (index indexers desired)
          (diff_indexers_with_ir od oc current desired empty_changes)
  unfolding diff_indexers_with_ir
  indexers-IsAddressed current desired =
      diff_keyed-IsAddressed indexers (λ c. some c.id) indexer-IsLabelled od oc current desired

  -- If the map of ids has the id of each current indexer under its name, the deprecated `DiffIndexers`
  -- writes what `DiffIndexersWithIR` does.
  pub indexers_ids_agree :
      (current desired : List IndexerIr) (indexer_ids : Dict String ℤ) (changes : ChangeSet)
      → ((name : String) (c : IndexerIr)
          → indexer_named name current ≡ some c
          → lookup name indexer_ids ≡ some c.id)
      → diff_indexers od oc current desired indexer_ids changes
        ≡ diff_indexers_with_ir od oc current desired changes
  unfolding diff_indexers diff_indexers_with_ir
  indexers_ids_agree current desired indexer_ids changes known =
      let by_map = indexers_by_map indexer_ids in
      diff_keyed-relabelled indexers by_map.update by_map.delete od oc current desired changes
        (λ n c d e. (ground (arith, known n c e), ground (arith, known n c e)))
