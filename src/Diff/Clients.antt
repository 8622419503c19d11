-- ===== src/Diff/Clients.antt =====
-- Download clients (internal/adapters/diff.go).
pub mod Laws
use nebularr_operator.Common.{
  String, Bool, ◌&&◌, ◌==◌, string_eq, bool_eq, int_eq, ℤ, pos, Option, none, some, List,
}
use nebularr_operator.Common.Dict.{Dict, lookup}
use nebularr_operator.Common.Range.{RangeOrder}
use nebularr_operator.Ir.{DownloadClientIr}
use nebularr_operator.Changes.{
  Change, ChangeSet, Payload, download_client, resource_download_client,
}
use nebularr_operator.Diff.Keyed.{Keyed, diff_keyed}

unfoldable pub download_clients_equal : DownloadClientIr → DownloadClientIr → Bool
download_clients_equal current desired =
    current.name == desired.name
    && current.implementation == desired.implementation
    && current.host == desired.host
    && current.port == desired.port
    && current.use_tls == desired.use_tls
    && current.category == desired.category
    && current.enable == desired.enable
    && current.priority == desired.priority

abbrev client_change : String → Option ℤ → Option DownloadClientIr → Change
client_change name id dc = record {
  resource_type = resource_download_client;
  name = name;
  id = id;
  payload = elim dc [ none ↦ none | some d ↦ some (download_client d) ];
}

-- `clientIDs[name]`, which is 0 for a name that is not there.
abbrev id_of : Dict String ℤ → String → ℤ
id_of ids name = elim (lookup name ids) [ none ↦ pos 0 | some id ↦ id ]

abbrev pub download_clients : Keyed DownloadClientIr
download_clients = record {
  key = λ dc. dc.name;
  equal = download_clients_equal;
  create = λ name d. client_change name none (some d);
  update = λ name c d. client_change name (some c.id) (some d);
  delete = λ name c. client_change name (some c.id) none;
}

-- The deprecated version finds the ids in a map of its own.
abbrev pub download_clients_by_map : Dict String ℤ → Keyed DownloadClientIr
download_clients_by_map ids = record {
  key = λ dc. dc.name;
  equal = download_clients_equal;
  create = λ name d. client_change name none (some d);
  update = λ name c d. client_change name (some (id_of ids name)) (some d);
  delete = λ name c. client_change name (some (id_of ids name)) none;
}

module _ (over_desired over_current : RangeOrder (String × DownloadClientIr)) where
  unfoldable pub diff_download_clients_with_ir :
      List DownloadClientIr → List DownloadClientIr → ChangeSet → ChangeSet
  unfolding diff_keyed download_clients_equal
  diff_download_clients_with_ir current desired changes =
      diff_keyed download_clients over_desired over_current current desired changes

  unfoldable pub diff_download_clients :
      List DownloadClientIr → List DownloadClientIr → Dict String ℤ → ChangeSet → ChangeSet
  unfolding diff_keyed download_clients_equal
  diff_download_clients current desired client_ids changes =
      diff_keyed (download_clients_by_map client_ids) over_desired over_current current desired
        changes
