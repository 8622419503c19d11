-- ===== src/Compiler/Prune.antt =====
-- internal/compiler/prune.go: what a service does not support is taken out and reported.
pub mod Sift
pub mod Laws
use nebularr_operator.Common.{
  String, ◌<>◌, Bool, string_eq, contains, if◌then◌else◌, Option, none, some, List, [], ◌∷◌, ◌++◌,
}
use nebularr_operator.Changes.{is_nil}
use nebularr_operator.Ir.{
  Ir, UnrealizedFeature, QualityIr, VideoQualityIr, VideoQualityTierIr, DownloadClientIr,
  IndexersIr, IndexerIr,
}
use nebularr_operator.Compiler.Types.{Capabilities}
use nebularr_operator.Compiler.Resources.{normalize_implementation}

abbrev pub unsupported : String → UnrealizedFeature
unsupported feature = record { feature = feature; reason = "not supported by service" }

-- One of the three loops: the items that pass are kept, and the others are reported.
unfoldable pub sift {ℓ} :
    {A : Type ℓ} → (A → Bool) → (A → String) → List A → List A × List UnrealizedFeature
sift test feature [] = ([], [])
sift test feature (a ∷ items) =
    let (kept, unrealized) = sift test feature items in
    if test a then (a ∷ kept, unrealized) else (kept, unsupported (feature a) ∷ unrealized)

module _ (caps : Capabilities) where
  abbrev pub supports_tier : VideoQualityTierIr → Bool
  supports_tier tier = contains caps.resolutions tier.resolution

  abbrev pub supports_client : DownloadClientIr → Bool
  supports_client dc =
      contains caps.download_client_types (normalize_implementation dc.implementation)

  abbrev pub supports_indexer : IndexerIr → Bool
  supports_indexer idx = contains caps.indexer_types idx.implementation

  unfoldable pub sift_tiers :
      List VideoQualityTierIr → List VideoQualityTierIr × List UnrealizedFeature
  unfolding sift
  sift_tiers = sift supports_tier (λ (tier : VideoQualityTierIr). "resolution:" <> tier.resolution)

  unfoldable pub sift_clients :
      List DownloadClientIr → List DownloadClientIr × List UnrealizedFeature
  unfolding sift normalize_implementation
  sift_clients =
      sift supports_client (λ (dc : DownloadClientIr). "downloadclient:" <> dc.implementation)

  unfoldable pub sift_indexers : List IndexerIr → List IndexerIr × List UnrealizedFeature
  unfolding sift
  sift_indexers = sift supports_indexer (λ (idx : IndexerIr). "indexer:" <> idx.implementation)

  -- `if ir.Quality != nil && ir.Quality.Video != nil`
  unfoldable pub prune_quality : Option QualityIr → Option QualityIr × List UnrealizedFeature
  unfolding sift_tiers
  prune_quality none = (none, [])
  prune_quality (some quality) = elim quality.video [
    | none ↦ (some quality, [])
    | some video ↦
        let (kept, unrealized) = sift_tiers video.tiers in
        (some (record quality { video = some (record video { tiers = kept }) }), unrealized)
  ]

  -- An empty list of types means that the service did not say, and nothing is pruned.
  unfoldable pub prune_clients :
      List DownloadClientIr → List DownloadClientIr × List UnrealizedFeature
  unfolding sift_clients
  prune_clients clients =
      if is_nil caps.download_client_types then (clients, []) else sift_clients clients

  unfoldable pub prune_indexers : Option IndexersIr → Option IndexersIr × List UnrealizedFeature
  unfolding sift_indexers
  prune_indexers none = (none, [])
  prune_indexers (some indexers) =
      if is_nil caps.indexer_types
      then (some indexers, [])
      else let (kept, unrealized) = sift_indexers indexers.direct in
        (some (record indexers { direct = kept }), unrealized)

-- The representation is changed in place: the new one is returned with the report.
unfoldable pub prune_unsupported : Ir → Capabilities → Ir × List UnrealizedFeature
unfolding prune_quality prune_clients prune_indexers
prune_unsupported ir caps =
    let (quality, u₁) = prune_quality caps ir.quality in
    let (clients, u₂) = prune_clients caps ir.download_clients in
    let (indexers, u₃) = prune_indexers caps ir.indexers in
    (
      record ir { quality = quality; download_clients = clients; indexers = indexers },
      u₁ ++ u₂ ++ u₃,
    )
