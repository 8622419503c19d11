-- ===== src/Compiler/Prune/Laws.antt =====
-- Pruning keeps what is supported, reports the rest, and is done after one pass.
use nebularr_operator.Common.{
  String, ◌<>◌, Bool, not, ◌||◌, ◌≡◌, string_eq, Option, none, some, List, [], ◌∷◌, ◌++◌, contains,
}
use nebularr_operator.Common.Dict.{Dict, lookup}
use nebularr_operator.Changes.{is_nil}
use nebularr_operator.Ir.{
  Ir, UnrealizedFeature, QualityIr, VideoQualityTierIr, DownloadClientIr, IndexersIr, IndexerIr,
}
use nebularr_operator.Compiler.Types.{Capabilities}
use nebularr_operator.Compiler.Prune.Sift.{filter, report}

-- What the parts of a representation that are pruned say.
abbrev pub tiers_of : Option QualityIr → List VideoQualityTierIr
tiers_of none = []
tiers_of (some quality) = elim quality.video [ none ↦ [] | some video ↦ video.tiers ]

abbrev pub direct_of : Option IndexersIr → List IndexerIr
direct_of none = []
direct_of (some indexers) = indexers.direct

-- The names by which the services know the six download clients; another name is its own.
abbrev pub service_names : Dict String String
service_names =
    ("qbittorrent", "QBittorrent")
    ∷ ("transmission", "Transmission")
    ∷ ("deluge", "Deluge")
    ∷ ("rtorrent", "RTorrent")
    ∷ ("sabnzbd", "Sabnzbd")
    ∷ ("nzbget", "NzbGet")
    ∷ []

abbrev pub service_name : String → String
service_name name = elim (lookup name service_names) [ none ↦ name | some known ↦ known ]

module _ (caps : Capabilities) where
  -- What a service can do: a resolution that it lists, and a type of client or indexer that it lists, under
  -- the name by which the services know it; a service that lists no types can do all.
  abbrev pub can_resolve : VideoQualityTierIr → Bool
  can_resolve tier = contains caps.resolutions tier.resolution

  abbrev pub can_download : DownloadClientIr → Bool
  can_download dc =
      is_nil caps.download_client_types
      || contains caps.download_client_types (service_name dc.implementation)

  abbrev pub can_search : IndexerIr → Bool
  can_search idx = is_nil caps.indexer_types || contains caps.indexer_types idx.implementation

  -- What pruning leaves of a representation, and what it reports.
  pub record IsPruned (ir pruned : Ir) (reports : List UnrealizedFeature) : Type 0 where
    pub tiers : tiers_of pruned.quality ≡ filter can_resolve (tiers_of ir.quality)
    pub clients : pruned.download_clients ≡ filter can_download ir.download_clients
    pub indexers : direct_of pruned.indexers ≡ filter can_search (direct_of ir.indexers)
    pub rest : pruned ≡ record ir {
      quality = pruned.quality;
      download_clients = pruned.download_clients;
      indexers = pruned.indexers;
    }
    pub reported :
        reports
        ≡ report
            (λ (t : VideoQualityTierIr). "resolution:" <> t.resolution)
            (filter (λ t. not (can_resolve t)) (tiers_of ir.quality))
          ++ report
              (λ (c : DownloadClientIr). "downloadclient:" <> c.implementation)
              (filter (λ c. not (can_download c)) ir.download_clients)
          ++ report
              (λ (i : IndexerIr). "indexer:" <> i.implementation)
              (filter (λ i. not (can_search i)) (direct_of ir.indexers))

  abbrev tier_feature : VideoQualityTierIr → String
  tier_feature tier = "resolution:" <> tier.resolution

  abbrev client_feature : DownloadClientIr → String
  client_feature dc = "downloadclient:" <> dc.implementation

  abbrev indexer_feature : IndexerIr → String
  indexer_feature idx = "indexer:" <> idx.implementation
