-- ===== src/Diff/Clients/Laws.antt =====
-- The diff of download clients brings the service to the desired state, and stays there.
use mathlib.Core.Path.{subst}
use nebularr_operator.Common.{
  sym, Bool-cases, inl, inr, String, true, ◌≡◌, refl, arith, Option, none, some, List, string_eq,
  bool_eq, int_eq, ℤ,
}
use nebularr_operator.Common.Dict.{Dict, lookup}
use nebularr_operator.Common.Range.{RangeOrder}
use nebularr_operator.Ir.{DownloadClientIr}
use nebularr_operator.Changes.{ChangeSet, Payload, download_client, empty_changes}
use nebularr_operator.Diff.Keyed.{index}
use nebularr_operator.Diff.Keyed.Agree.{diff_keyed-relabelled}
use nebularr_operator.Diff.Keyed.Service.{same_id, Reading, IsReadBy, serve, settled}
use nebularr_operator.Diff.Keyed.Addresses.{IsLabelled, IsAddressed, diff_keyed-IsAddressed}
use nebularr_operator.Diff.Keyed.Converge.{lookup-serve-diff_keyed, diff_keyed-settled}
use nebularr_operator.Diff.Clients.{
  download_clients, download_clients_equal, diff_download_clients_with_ir, diff_download_clients,
  download_clients_by_map,
}

abbrev client_of : Option Payload → Option DownloadClientIr
client_of (some (download_client d)) = some d
client_of _ = none

-- The service finds a client by its name, and stores what it is sent.
abbrev pub client_reading : Reading DownloadClientIr
client_reading = record {
  target = λ c. c.name;
  payload = λ c. client_of c.payload;
  finds_updated = λ c a. same_id c.id a.id;
  finds_deleted = λ c a. same_id c.id a.id;
  sent = λ _ d. d;
}

client-IsReadBy : IsReadBy download_clients client_reading
client-IsReadBy = record {
  target-create = λ d. refl;
  payload-create = λ d. refl;
  target-update = λ c d. refl;
  payload-update = λ c d. refl;
  finds-update = λ c d. ground arith;
  target-delete = λ c. refl;
  finds-delete = λ c. ground arith;
}

download_clients_equal_refl : (d : DownloadClientIr) → download_clients_equal d d ≡ true
unfolding download_clients_equal
download_clients_equal_refl d = ground arith

client-IsLabelled : IsLabelled download_clients (λ c. some c.id)
client-IsLabelled = record {
  create = λ n d. (refl, refl);
  update = λ n c d. (refl, refl);
  delete = λ n c. (refl, refl);
}

abbrev pub settled_client :
    Option DownloadClientIr → Option DownloadClientIr → Option DownloadClientIr
settled_client = settled download_clients client_reading

-- The client agrees with the wanted one in what is compared, and there is one exactly if one is wanted.
abbrev pub AgreesWith : DownloadClientIr → DownloadClientIr → Type 0
AgreesWith a d =
    (a.name ≡ d.name)
    × (a.implementation ≡ d.implementation)
    × (a.host ≡ d.host)
    × (a.port ≡ d.port)
    × (a.use_tls ≡ d.use_tls)
    × (a.category ≡ d.category)
    × (a.enable ≡ d.enable)
    × (a.priority ≡ d.priority)

abbrev pub IsAsWanted : Option DownloadClientIr → Option DownloadClientIr → Type 0
IsAsWanted found none = found ≡ none
IsAsWanted found (some d) = (a : DownloadClientIr) × (found ≡ some a) × AgreesWith a d

download_clients_equal-AgreesWith :
    (a d : DownloadClientIr) → download_clients_equal a d ≡ true → AgreesWith a d
unfolding download_clients_equal
download_clients_equal-AgreesWith a d e = ground (arith, e)

settled_client-IsAsWanted : (c d : Option DownloadClientIr) → IsAsWanted (settled_client c d) d
settled_client-IsAsWanted c none = refl
settled_client-IsAsWanted none (some d) =
    (d, refl, (refl, refl, refl, refl, refl, refl, refl, refl))
settled_client-IsAsWanted (some c) (some d) = elim (Bool-cases (download_clients_equal c d)) [
  | inl e ↦ (c, rw e refl, download_clients_equal-AgreesWith c d e)
  | inr e ↦ (d, rw e refl, (refl, refl, refl, refl, refl, refl, refl, refl))
]

abbrev pub client_named : String → List DownloadClientIr → Option DownloadClientIr
client_named name clients = lookup name (index download_clients clients)

module _ (od oc : RangeOrder (String × DownloadClientIr)) where
  -- What a service has under each name after it carried out the change set.
  pub clients_settled :
      (current desired : List DownloadClientIr) (name : String)
      → lookup name (
          serve client_reading
            (diff_download_clients_with_ir od oc current desired empty_changes)
            (index download_clients current))
        ≡ settled_client (client_named name current) (client_named name desired)
  unfolding diff_download_clients_with_ir
  clients_settled current desired name =
      lookup-serve-diff_keyed download_clients client_reading od oc client-IsReadBy current desired
        name

  -- A service that holds the current clients by name, refuses an update or a delete without the id of the
  -- client of that name, and carries out the change set that `DiffDownloadClientsWithIR` writes, has under
  -- each name: nothing, if no client of that name is wanted; the current client, if `DownloadClientsEqual`
  -- takes it for the wanted one; and else the wanted one. So it has a client of a name exactly if one is
  -- wanted, and that agrees with the wanted one in the name, implementation, host, port, TLS, category, priority
  -- and in whether it is enabled; its protocol, user name, password and flags for removal may be others. That
  -- holds in whatever order Go visits the two maps.
  pub clients_reconciled :
      (current desired : List DownloadClientIr) (name : String)
      → let found = lookup name (
          serve client_reading
            (diff_download_clients_with_ir od oc current desired empty_changes)
            (index download_clients current)) in
        (found ≡ settled_client (client_named name current) (client_named name desired))
        × IsAsWanted found (client_named name desired)
  unfolding diff_download_clients_with_ir
  clients_reconciled current desired name =
      let settles = clients_settled current desired name in
      (
        settles,
        subst (λ o. IsAsWanted o (client_named name desired)) (sym settles)
            (settled_client-IsAsWanted (client_named name current) (client_named name desired)),
      )

  -- If the service reports under each name the client that a reconciliation leaves there (none if none
  -- is wanted, the one that was there if it equals the wanted one, and else the wanted one), a further
  -- diff adds no change.
  pub clients_stable :
      (current desired after : List DownloadClientIr)
      → ((name : String)
          → client_named name after
            ≡ settled_client (client_named name current) (client_named name desired))
      → (changes : ChangeSet) → diff_download_clients_with_ir od oc after desired changes ≡ changes
  unfolding diff_download_clients_with_ir
  clients_stable current desired after h changes =
      diff_keyed-settled download_clients client_reading od oc current desired after
        (λ _ d _. download_clients_equal_refl d) (λ _ _ d _. download_clients_equal_refl d) h
        changes

  -- Creates are of names that the service lacks and have no id; updates and deletes name a current
  -- client and have its id; and a deleted name is not wanted.
  pub clients-IsAddressed :
      (current desired : List DownloadClientIr)
      → IsAddressed
          (λ c. some c.id)
          (index download_clients current)
          (index download_clients desired)
          (diff_download_clients_with_ir od oc current desired empty_changes)
  unfolding diff_download_clients_with_ir
  clients-IsAddressed current desired =
      diff_keyed-IsAddressed download_clients (λ c. some c.id) client-IsLabelled od oc current
        desired

  -- If the map of ids has the id of each current client under its name, the deprecated `DiffDownloadClients`
  -- writes what `DiffDownloadClientsWithIR` does.
  pub clients_ids_agree :
      (current desired : List DownloadClientIr) (client_ids : Dict String ℤ) (changes : ChangeSet)
      → ((name : String) (c : DownloadClientIr)
          → client_named name current ≡ some c
          → lookup name client_ids ≡ some c.id)
      → diff_download_clients od oc current desired client_ids changes
        ≡ diff_download_clients_with_ir od oc current desired changes
  unfolding diff_download_clients diff_download_clients_with_ir
  clients_ids_agree current desired client_ids changes known =
      let by_map = download_clients_by_map client_ids in
      diff_keyed-relabelled download_clients by_map.update by_map.delete od oc current desired
        changes (λ n c d e. (ground (arith, known n c e), ground (arith, known n c e)))
