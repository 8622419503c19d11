-- ===== src/Tests/Sent.antt =====
-- What is sent to a Sonarr and a Lidarr and read back, and the tag of the operator.
use nebularr_operator.Common.{
  err, String, ◌⊎◌, ok_inj, sym, string_eq, int_eq, true, false, ◌≡◌, refl, ap, inl, inr, ℤ, pos,
  List, [], ◌∷◌, ◌++◌, map, ok,
}
use nebularr_operator.Ir.{Float64, of_int, of_bits, DownloadClientIr, IndexerIr}
use nebularr_operator.Changes.{empty_changes}
use nebularr_operator.Diff.Clients.{diff_download_clients_with_ir}
use nebularr_operator.Shared.Resources.{
  DownloadClientResource, sonarr, lidarr, has_tag, managed_download_clients, managed_indexers,
}
use nebularr_operator.Shared.Resources.Laws.{
  sent_client, known_client, sent_indexer, known_indexer, managed_indexers_back,
}
use nebularr_operator.Shared.Resources.Converge.{clients_converge}
use nebularr_operator.Shared.Tags.{TagResource, TagClient, ensure_ownership_tag}
use nebularr_operator.Shared.Tags.Laws.{IsTagServer, IsOneTag, IsAnswered, IsAdded, ensure-IsOneTag}
use nebularr_operator.Tests.Data.{in_order, in_reverse, client, indexer}

abbrev to_int : Float64 → ℤ
to_int (of_int n) = n
to_int (of_bits n) = pos 0

abbrev sent_clients : List (ℤ × DownloadClientIr)
sent_clients = (pos 3, client (pos 0) "nebularr-tv-main" "qbittorrent") ∷ []

-- A client that a user has added by hand.
abbrev by_hand : DownloadClientResource
by_hand = record {
  id = pos 1;
  name = "mine";
  implementation = "Deluge";
  config_contract = "DelugeSettings";
  protocol = "torrent";
  enable = true;
  priority = pos 1;
  tags = pos 2 ∷ [];
  fields = [];
  remove_completed_downloads = false;
  remove_failed_downloads = false;
}

clients_converge_example :
    let after =
      managed_download_clients sonarr to_int
        (map (sent_client sonarr (pos 7)) sent_clients ++ by_hand ∷ [])
        (pos 7) in
    (after ≡ map (known_client sonarr (pos 7)) sent_clients)
    × (diff_download_clients_with_ir in_order in_reverse after
          (map (λ (s : ℤ × DownloadClientIr). s.1) sent_clients)
          empty_changes
        ≡ empty_changes)
unfolding has_tag int_eq
clients_converge_example =
    clients_converge sonarr (pos 7) to_int in_order in_reverse sent_clients (by_hand ∷ [])
      empty_changes (λ n e. refl) (inl refl) (refl, tt) (refl, tt)

abbrev sent_indexers : List (ℤ × IndexerIr)
sent_indexers =
    (
      pos 4,
      record (indexer (pos 0) "nebularr-music-geek" "Newznab") {
        categories = pos 3000 ∷ pos 3040 ∷ [];
      },
    )
    ∷ []

managed_indexers_back_example :
    managed_indexers lidarr to_int (map (sent_indexer lidarr (pos 7)) sent_indexers ++ []) (pos 7)
    ≡ map (known_indexer lidarr (pos 7)) sent_indexers
managed_indexers_back_example =
    managed_indexers_back to_int (λ n e. refl) lidarr (pos 7) sent_indexers [] (inr refl)
      ((refl, (refl, (refl, tt))), tt) tt

-- A service that stores tags, each under an id of 7.
abbrev tagging : TagClient (List TagResource)
tagging = record {
  get = λ path s. (ok s, s);
  post = λ path t s. (ok (record t { id = pos 7 }), s ++ record t { id = pos 7 } ∷ []);
}

tagging-IsTagServer : IsTagServer tagging "v3" (λ s. s)
tagging-IsTagServer = record {
  answers = λ s. inl refl;
  reads = λ s. refl;
  creates = λ t created s e.
      let same = ok_inj (record t { id = pos 7 }) created e in
      (ap (λ (x : TagResource). x.label) (sym same), ap (λ (x : TagResource). s ++ x ∷ []) same);
}

abbrev other_tag : TagResource
other_tag = record { id = pos 2; label = "mine" }

abbrev tagged : List TagResource
tagged = other_tag ∷ record { id = pos 7; label = "nebularr-managed" } ∷ []

ensure-IsOneTag_example :
    (IsAnswered tagging "v3" (λ (s : List TagResource). s) tagging-IsTagServer (other_tag ∷ [])
      × IsOneTag tagging "v3"
          (λ (s : List TagResource). s)
          tagging-IsTagServer
          (pos 7)
          (other_tag ∷ [])
          tagged
      × (IsAnswered tagging "v3" (λ (s : List TagResource). s) tagging-IsTagServer tagged
          → ensure_ownership_tag tagging "v3" tagged ≡ (ok (pos 7), tagged)))
    ⊎ ((m : String) × ((tagging.get "/api/v3/tag" (other_tag ∷ [])).0 ≡ err m)
        × IsAdded tagging "v3"
            (λ (s : List TagResource). s)
            tagging-IsTagServer
            (pos 7)
            (other_tag ∷ [])
            tagged)
unfolding ensure_ownership_tag string_eq
ensure-IsOneTag_example =
    ensure-IsOneTag tagging "v3" (λ s. s) tagging-IsTagServer (other_tag ∷ []) (pos 7) refl
