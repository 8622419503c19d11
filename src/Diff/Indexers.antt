-- ===== src/Diff/Indexers.antt =====
-- Indexers (internal/adapters/diff.go).
pub mod Laws
use nebularr_operator.Common.{
  String, Bool, ◌&&◌, ◌==◌, string_eq, bool_eq, int_eq, ℤ, pos, Option, none, some, List,
}
use nebularr_operator.Common.Dict.{Dict, lookup}
use nebularr_operator.Common.Range.{RangeOrder}
use nebularr_operator.Ir.{IndexerIr}
use nebularr_operator.Changes.{Change, ChangeSet, Payload, indexer, resource_indexer}
use nebularr_operator.Diff.Keyed.{Keyed, diff_keyed}

unfoldable pub indexers_equal : IndexerIr → IndexerIr → Bool
indexers_equal current desired =
    current.name == desired.name
    && current.implementation == desired.implementation
    && current.url == desired.url
    && current.enable == desired.enable
    && current.priority == desired.priority
    && current.enable_rss == desired.enable_rss
    && current.enable_automatic_search == desired.enable_automatic_search
    && current.enable_interactive_search == desired.enable_interactive_search

abbrev indexer_change : String → Option ℤ → Option IndexerIr → Change
indexer_change name id idx = record {
  resource_type = resource_indexer;
  name = name;
  id = id;
  payload = elim idx [ none ↦ none | some d ↦ some (indexer d) ];
}

-- `indexerIDs[name]`, which is 0 for a name that is not there.
abbrev id_of : Dict String ℤ → String → ℤ
id_of ids name = elim (lookup name ids) [ none ↦ pos 0 | some id ↦ id ]

abbrev pub indexers : Keyed IndexerIr
indexers = record {
  key = λ idx. idx.name;
  equal = indexers_equal;
  create = λ name d. indexer_change name none (some d);
  update = λ name c d. indexer_change name (some c.id) (some d);
  delete = λ name c. indexer_change name (some c.id) none;
}

-- The deprecated version finds the ids in a map of its own.
abbrev pub indexers_by_map : Dict String ℤ → Keyed IndexerIr
indexers_by_map ids = record {
  key = λ idx. idx.name;
  equal = indexers_equal;
  create = λ name d. indexer_change name none (some d);
  update = λ name c d. indexer_change name (some (id_of ids name)) (some d);
  delete = λ name c. indexer_change name (some (id_of ids name)) none;
}

module _ (over_desired over_current : RangeOrder (String × IndexerIr)) where
  unfoldable pub diff_indexers_with_ir : List IndexerIr → List IndexerIr → ChangeSet → ChangeSet
  unfolding diff_keyed indexers_equal
  diff_indexers_with_ir current desired changes =
      diff_keyed indexers over_desired over_current current desired changes

  unfoldable pub diff_indexers :
      List IndexerIr → List IndexerIr → Dict String ℤ → ChangeSet → ChangeSet
  unfolding diff_keyed indexers_equal
  diff_indexers current desired indexer_ids changes =
      diff_keyed (indexers_by_map indexer_ids) over_desired over_current current desired changes
