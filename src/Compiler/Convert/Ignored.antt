-- ===== src/Compiler/Convert/Ignored.antt =====
-- What the compilation of a service does not depend on, though its specification has it.
use nebularr_operator.Common.{
  ℕ, String, false, ◌≡◌, refl, ap, Option, none, some, Option-cases, inl, inr, List, [], ◌∷◌, map,
}
use nebularr_operator.Common.Dict.{Dict}
use nebularr_operator.Common.Range.{RangeOrder}
use nebularr_operator.Api.{DownloadClientSpec, DirectIndexer, IndexersSpec}
use nebularr_operator.Api.Specs.{VideoQualitySpec, NamingSpec, NotificationSpec}
use nebularr_operator.Api.Kinds.{RadarrConfig, LidarrConfig}
use nebularr_operator.Compiler.Types.{Capabilities, IndexerInput}
use nebularr_operator.Presets.Override.{QualityOverrides}
use nebularr_operator.Compiler.Compile.{Hashable, compile}
use nebularr_operator.Compiler.Convert.Clients.{
  ParseUrl, convert_download_client, convert_download_clients, convert_indexer, convert_indexers,
}
use nebularr_operator.Compiler.Convert.Settings.{convert_notification, convert_notifications}
use nebularr_operator.Compiler.Convert.Kinds.{
  radarr_input, lidarr_input, compile_radarr_config, compile_lidarr_config,
}
use nebularr_operator.Compiler.Convert.Quality.{video_overrides}

-- Everything that can be enabled, disabled.
abbrev pub client_off : DownloadClientSpec → DownloadClientSpec
client_off dc = record dc { enabled = some false }

abbrev pub indexer_off : DirectIndexer → DirectIndexer
indexer_off idx = record idx { enabled = some false }

abbrev pub notification_off : NotificationSpec → NotificationSpec
notification_off n = record n { enabled = some false }

abbrev pub indexers_off : Option IndexersSpec → Option IndexersSpec
indexers_off none = none
indexers_off (some spec) = some (record spec { direct = map indexer_off spec.direct })

-- A quality and a naming without their manual settings.
abbrev pub preset_only : Option VideoQualitySpec → Option VideoQualitySpec
preset_only none = none
preset_only (some q) = some (record q {
  template_ref = none;
  tiers = [];
  upgrade_until = none;
  preferred_formats = [];
  rejected_formats = [];
})

abbrev pub preset_naming : Option NamingSpec → Option NamingSpec
preset_naming none = none
preset_naming (some n) =
    some (record n { rename_media = none; standard_format = ""; folder_format = "" })

abbrev pub bare_radarr : RadarrConfig → RadarrConfig
bare_radarr config = record config {
  spec = record config.spec {
    download_clients = map client_off config.spec.download_clients;
    indexers = indexers_off config.spec.indexers;
    notifications = map notification_off config.spec.notifications;
    quality = preset_only config.spec.quality;
    naming = preset_naming config.spec.naming;
  };
}

abbrev pub bare_lidarr : LidarrConfig → LidarrConfig
bare_lidarr config = record config {
  spec = record config.spec { custom_formats = []; delay_profiles = []; metadata = none };
}

map-map_same {ℓ κ} :
    {A : Type ℓ} {B : Type κ} (f : A → B) (g : A → A) (xs : List A)
    → ((a : A) → f (g a) ≡ f a)
    → map f (map g xs) ≡ map f xs
map-map_same f g [] h = refl
map-map_same f g (x ∷ xs) h = λ i. h x i ∷ map-map_same f g xs h i

preset-preset_only :
    (q : Option VideoQualitySpec)
    → ◌≡◌ {A = String}
        (elim (preset_only q) [ none ↦ "" | some v ↦ v.preset ])
        (elim q [ none ↦ "" | some v ↦ v.preset ])
preset-preset_only none = refl
preset-preset_only (some q) = refl

overrides-preset_only :
    (q : Option VideoQualitySpec)
    → ◌≡◌ {A = Option QualityOverrides}
        (elim (preset_only q) [ none ↦ none | some v ↦ video_overrides v ])
        (elim q [ none ↦ none | some v ↦ video_overrides v ])
overrides-preset_only none = refl
overrides-preset_only (some q) = refl

preset-preset_naming :
    (n : Option NamingSpec)
    → ◌≡◌ {A = String}
        (elim (preset_naming n) [ none ↦ "" | some v ↦ v.preset ])
        (elim n [ none ↦ "" | some v ↦ v.preset ])
preset-preset_naming none = refl
preset-preset_naming (some n) = refl

module _ (parse_url : ParseUrl) (order : RangeOrder (String × String)) where
  convert_indexers-off :
      (spec : Option IndexersSpec) (secrets : Dict String String)
      → convert_indexers (indexers_off spec) secrets ≡ convert_indexers spec secrets
  unfolding convert_indexers convert_indexer
  convert_indexers-off none secrets = refl
  convert_indexers-off (some spec) secrets = elim (Option-cases spec.prowlarr_ref) [
    | inl e ↦ rw e (
        ap (λ (direct : List IndexerInput). some (record { prowlarr_ref = none; direct = direct }))
          (map-map_same (convert_indexer secrets) indexer_off spec.direct (λ idx. refl)))
    | inr (ref, e) ↦ rw e refl
  ]

  radarr_input-bare :
      (config : RadarrConfig) (secrets : Dict String String) (caps : Option Capabilities)
      → radarr_input parse_url order (bare_radarr config) secrets caps
        ≡ radarr_input parse_url order config secrets caps
  unfolding radarr_input convert_download_clients convert_download_client convert_notifications
      convert_notification
  radarr_input-bare config secrets caps =
      let clients =
        map-map_same (convert_download_client parse_url secrets) client_off
          config.spec.download_clients (λ dc. refl) in
      let notes =
        map-map_same (convert_notification order secrets) notification_off config.spec.notifications
          (λ n. refl) in
      λ i. record (radarr_input parse_url order config secrets caps) {
        download_clients = clients i;
        indexers = convert_indexers-off config.spec.indexers secrets i;
        notifications = notes i;
        quality_preset = preset-preset_only config.spec.quality i;
        quality_overrides = overrides-preset_only config.spec.quality i;
        naming_preset = preset-preset_naming config.spec.naming i;
      }

  -- The compilation ignores settings of a specification. A Radarr is compiled as if no download client, no
  -- direct indexer and no notification was disabled, and neither a quality nor a naming was set by hand or by a
  -- template. A Lidarr is compiled as if it had no custom formats, no delay profiles and no metadata profile.
  pub settings_ignored :
      (now : ℕ) (digest : Hashable → String) (radarr : RadarrConfig) (lidarr : LidarrConfig)
      (secrets : Dict String String) (caps : Option Capabilities)
      → (compile_radarr_config parse_url order now digest (bare_radarr radarr) secrets caps
          ≡ compile_radarr_config parse_url order now digest radarr secrets caps)
        × (compile_lidarr_config parse_url order now digest (bare_lidarr lidarr) secrets caps
            ≡ compile_lidarr_config parse_url order now digest lidarr secrets caps)
  unfolding compile_radarr_config compile_lidarr_config lidarr_input
  settings_ignored now digest radarr lidarr secrets caps =
      (ap (compile digest now) (radarr_input-bare radarr secrets caps), refl)
