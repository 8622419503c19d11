-- ===== src/Tests/Diffs.antt =====
-- The diffs of named resources.
use nebularr_operator.Common.{
  String, string_eq, ◌≡◌, refl, pos, some, List, [], ◌∷◌, Option-cases, inl, inr, arith,
}
use nebularr_operator.Common.Dict.{lookup, insert}
use nebularr_operator.Ir.{DownloadClientIr, IndexerIr}
use nebularr_operator.Changes.{empty_changes}
use nebularr_operator.Diff.Keyed.{index, index_onto}
use nebularr_operator.Diff.Keyed.Service.{serve}
use nebularr_operator.Diff.Keyed.Addresses.{IsAddressed}
use nebularr_operator.Diff.Clients.{download_clients, diff_download_clients_with_ir}
use nebularr_operator.Diff.Clients.Laws.{
  client_reading, settled_client, client_named, clients_reconciled, clients_stable, IsAsWanted,
  clients-IsAddressed,
}
use nebularr_operator.Diff.Indexers.Laws.{settled_indexer, indexer_named}
use nebularr_operator.Tests.Data.{in_order, in_reverse, client, indexer}

abbrev old_clients : List DownloadClientIr
old_clients = client (pos 1) "gone" "a" ∷ client (pos 2) "moved" "a" ∷ []

abbrev new_clients : List DownloadClientIr
new_clients = client (pos 0) "moved" "b" ∷ client (pos 0) "new" "b" ∷ []

abbrev old_indexers : List IndexerIr
old_indexers = indexer (pos 1) "gone" "a" ∷ indexer (pos 2) "moved" "a" ∷ []

abbrev new_indexers : List IndexerIr
new_indexers = indexer (pos 0) "moved" "b" ∷ indexer (pos 0) "new" "b" ∷ []

clients_reconciled_example :
    let found = lookup "moved" (
      serve client_reading
        (diff_download_clients_with_ir in_order in_reverse old_clients new_clients empty_changes)
        (index download_clients old_clients)) in
    (found ≡ settled_client (client_named "moved" old_clients) (client_named "moved" new_clients))
    × IsAsWanted found (client_named "moved" new_clients)
clients_reconciled_example = clients_reconciled in_order in_reverse old_clients new_clients "moved"

-- After both clients were created on an empty service.
created_clients :
    (name : String)
    → client_named name new_clients
      ≡ settled_client (client_named name []) (client_named name new_clients)
unfolding index_onto lookup
created_clients name = elim (Option-cases (client_named name new_clients)) [
  | inl e ↦ rw e refl
  | inr (c, e) ↦ rw e refl
]

clients_stable_example :
    diff_download_clients_with_ir in_order in_reverse new_clients new_clients empty_changes
    ≡ empty_changes
clients_stable_example =
    clients_stable in_order in_reverse [] new_clients new_clients created_clients empty_changes

clients-IsAddressed_example :
    IsAddressed
      (λ c. some c.id)
      (index download_clients old_clients)
      (index download_clients new_clients)
      (diff_download_clients_with_ir in_order in_reverse old_clients new_clients empty_changes)
clients-IsAddressed_example = clients-IsAddressed in_order in_reverse old_clients new_clients

only_client :
    (name : String) (c : DownloadClientIr)
    → client_named name (client (pos 3) "one" "a" ∷ []) ≡ some c
    → lookup name (("one", pos 3) ∷ []) ≡ some c.id
unfolding index_onto lookup insert
only_client name c e = ground (arith, e)

created_indexers :
    (name : String)
    → indexer_named name new_indexers
      ≡ settled_indexer (indexer_named name []) (indexer_named name new_indexers)
unfolding index_onto lookup
created_indexers name = elim (Option-cases (indexer_named name new_indexers)) [
  | inl e ↦ rw e refl
  | inr (c, e) ↦ rw e refl
]

only_indexer :
    (name : String) (c : IndexerIr)
    → indexer_named name (indexer (pos 3) "one" "a" ∷ []) ≡ some c
    → lookup name (("one", pos 3) ∷ []) ≡ some c.id
unfolding index_onto lookup insert
only_indexer name c e = ground (arith, e)
