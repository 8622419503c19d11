-- ===== src/Shared/Resources/Laws.antt =====
-- What is sent of a download client and of an indexer is read back.
use mathlib.Core.Path.{subst}
use nebularr_operator.Common.{
  suc, string_eq, int_eq, if◌then◌else◌, Bool, true, false, ◌≡◌, ◌⊎◌, refl, sym, inl, inr, arith, ℤ,
  pos, negsuc, List, [], ◌∷◌, ◌++◌, map, All,
}
use nebularr_operator.Common.Text.{leb}
use nebularr_operator.Ir.{Float64, of_int, DownloadClientIr, IndexerIr}
use nebularr_operator.Prowlarr.{ints}
use nebularr_operator.Shared.Fields.{numbers}
use nebularr_operator.Shared.Resources.{
  DownloadClientResource, IndexerResource, Service, sonarr, lidarr, has_tag,
  download_client_from_ir, indexer_from_ir, client_to_ir, indexer_to_ir, managed_download_clients,
  managed_indexers,
}

-- The integers that a float64 has exactly.
abbrev pub is_exact : ℤ → Bool
is_exact (pos n) = leb n 9007199254740992
is_exact (negsuc n) = leb (suc n) 9007199254740992

abbrev pub IsService : Service → Type 0
IsService service = (service ≡ sonarr) ⊎ (service ≡ lidarr)

has_tag-own : (tag_id : ℤ) → has_tag (tag_id ∷ []) tag_id ≡ true
unfolding has_tag
has_tag-own tag_id = ground arith

module _ (service : Service) (tag_id : ℤ) where
  -- What the service has of what was sent, under the id that it gave.
  abbrev pub sent_client : ℤ × DownloadClientIr → DownloadClientResource
  sent_client (id, dc) = record (download_client_from_ir service dc tag_id) { id = id }

  abbrev pub sent_indexer : ℤ × IndexerIr → IndexerResource
  sent_indexer (id, idx) = record (indexer_from_ir service idx tag_id) { id = id }

  -- What can come back: no directory of a client, no seed criteria of an indexer, and its seeders if they are
  -- sent.
  abbrev pub known_client : ℤ × DownloadClientIr → DownloadClientIr
  known_client (id, dc) = record dc { id = id; directory = "" }

  abbrev pub known_indexer : ℤ × IndexerIr → IndexerIr
  known_indexer (id, idx) = record idx {
    id = id;
    minimum_seeders = if service.sends_seeders then idx.minimum_seeders else pos 0;
    seed_ratio = of_int (pos 0);
    seed_time_minutes = pos 0;
  }

at_service {ℓ} :
    (P : Service → Type ℓ) (service : Service) → P sonarr → P lidarr → IsService service → P service
at_service P service p q (inl e) = subst P (sym e) p
at_service P service p q (inr e) = subst P (sym e) q

module _ (to_int : Float64 → ℤ) (exact : (n : ℤ) → is_exact n ≡ true → to_int (of_int n) ≡ n) where
  numbers-ints : (l : List ℤ) → All (λ (n : ℤ). is_exact n ≡ true) l → numbers to_int (ints l) ≡ l
  unfolding numbers ints
  numbers-ints [] h = refl
  numbers-ints (n ∷ l) (own, h) = λ i. exact n own i ∷ numbers-ints l h i

  client_read_back :
      (service : Service) (tag_id : ℤ) (sent : ℤ × DownloadClientIr)
      → IsService service
      → is_exact sent.1.port ≡ true
      → client_to_ir service to_int (sent_client service tag_id sent)
        ≡ known_client service tag_id sent
  unfolding client_to_ir string_eq
  client_read_back service tag_id sent is_one port =
      let at_sonarr : client_to_ir sonarr to_int (sent_client sonarr tag_id sent)
          ≡ known_client sonarr tag_id sent =
        λ i. record (known_client sonarr tag_id sent) { port = exact sent.1.port port i } in
      let at_lidarr : client_to_ir lidarr to_int (sent_client lidarr tag_id sent)
          ≡ known_client lidarr tag_id sent =
        λ i. record (known_client lidarr tag_id sent) { port = exact sent.1.port port i } in
      at_service
        (λ s. client_to_ir s to_int (sent_client s tag_id sent) ≡ known_client s tag_id sent)
        service at_sonarr at_lidarr is_one

  indexer_read_back :
      (service : Service) (tag_id : ℤ) (sent : ℤ × IndexerIr)
      → IsService service
      → is_exact sent.1.minimum_seeders ≡ true
      → All (λ (n : ℤ). is_exact n ≡ true) sent.1.categories
      → indexer_to_ir service to_int (sent_indexer service tag_id sent)
        ≡ known_indexer service tag_id sent
  unfolding indexer_to_ir indexer_from_ir string_eq
  indexer_read_back service tag_id sent is_one seeders categories =
      let at_sonarr : indexer_to_ir sonarr to_int (sent_indexer sonarr tag_id sent)
          ≡ known_indexer sonarr tag_id sent =
        λ i. record (known_indexer sonarr tag_id sent) {
          categories = numbers-ints sent.1.categories categories i;
          minimum_seeders = exact sent.1.minimum_seeders seeders i;
        } in
      let at_lidarr : indexer_to_ir lidarr to_int (sent_indexer lidarr tag_id sent)
          ≡ known_indexer lidarr tag_id sent =
        λ i. record (known_indexer lidarr tag_id sent) {
          categories = numbers-ints sent.1.categories categories i;
        } in
      at_service
        (λ s. indexer_to_ir s to_int (sent_indexer s tag_id sent) ≡ known_indexer s tag_id sent)
        service at_sonarr at_lidarr is_one

  -- The resources of others, which have not the tag, and those that were sent.
  foreign_clients :
      (service : Service) (tag_id : ℤ) (foreign : List DownloadClientResource)
      → All (λ (r : DownloadClientResource). has_tag r.tags tag_id ≡ false) foreign
      → managed_download_clients service to_int foreign tag_id ≡ []
  unfolding managed_download_clients
  foreign_clients service tag_id [] h = refl
  foreign_clients service tag_id (r ∷ foreign) (own, h) =
      rw own (foreign_clients service tag_id foreign h)

  foreign_indexers :
      (service : Service) (tag_id : ℤ) (foreign : List IndexerResource)
      → All (λ (r : IndexerResource). has_tag r.tags tag_id ≡ false) foreign
      → managed_indexers service to_int foreign tag_id ≡ []
  unfolding managed_indexers
  foreign_indexers service tag_id [] h = refl
  foreign_indexers service tag_id (r ∷ foreign) (own, h) =
      rw own (foreign_indexers service tag_id foreign h)

  pub managed_clients_back :
      (service : Service) (tag_id : ℤ) (sent : List (ℤ × DownloadClientIr))
      (foreign : List DownloadClientResource)
      → IsService service
      → All (λ (s : ℤ × DownloadClientIr). is_exact s.1.port ≡ true) sent
      → All (λ (r : DownloadClientResource). has_tag r.tags tag_id ≡ false) foreign
      → managed_download_clients service to_int
          (map (sent_client service tag_id) sent ++ foreign)
          tag_id
        ≡ map (known_client service tag_id) sent
  unfolding managed_download_clients
  managed_clients_back service tag_id [] foreign is_one ports h =
      foreign_clients service tag_id foreign h
  managed_clients_back service tag_id (s ∷ sent) foreign is_one (port, ports) h =
      rw (has_tag-own tag_id) (λ i.
        client_read_back service tag_id s is_one port i
        ∷ managed_clients_back service tag_id sent foreign is_one ports h i)

  -- The adapter of Sonarr or Lidarr reads back the indexers that were sent under the tag of the operator, in their
  -- order and under the ids that the service gave, and none of the resources of others, but for their seed ratio and seed time, which are never sent, and at Lidarr their seeders. The
  -- numbers are those that a float64 has exactly, and these are converted exactly.
  pub managed_indexers_back :
      (service : Service) (tag_id : ℤ) (sent : List (ℤ × IndexerIr))
      (foreign : List IndexerResource)
      → IsService service
      → All
          (λ (s : ℤ × IndexerIr).
            (is_exact s.1.minimum_seeders ≡ true)
            × All (λ (n : ℤ). is_exact n ≡ true) s.1.categories)
          sent
      → All (λ (r : IndexerResource). has_tag r.tags tag_id ≡ false) foreign
      → managed_indexers service to_int (map (sent_indexer service tag_id) sent ++ foreign) tag_id
        ≡ map (known_indexer service tag_id) sent
  unfolding managed_indexers indexer_from_ir
  managed_indexers_back service tag_id [] foreign is_one numbers h =
      foreign_indexers service tag_id foreign h
  managed_indexers_back service tag_id (s ∷ sent) foreign is_one ((seeders, cats), rest) h =
      rw (has_tag-own tag_id) (λ i.
        indexer_read_back service tag_id s is_one seeders cats i
        ∷ managed_indexers_back service tag_id sent foreign is_one rest h i)
