-- ===== src/Presets/Override/Laws.antt =====
-- What an override does to the two format lists of a preset.
use nebularr_operator.Common.{
  String, Bool, not, ◌&&◌, ◌||◌, ◌≡◌, refl, arith, string_eq, contains, List, [], ◌∷◌,
  contains-append,
}
use nebularr_operator.Presets.Video.{VideoQualityPreset}
use nebularr_operator.Presets.Audio.{AudioQualityPreset}
use nebularr_operator.Presets.Override.{
  QualityOverrides, reject, remove_items, apply_video_overrides, apply_audio_overrides,
}

contains-reject :
    (set slice : List String) (a : String)
    → contains (reject set slice) a ≡ (contains slice a && not (contains set a))
unfolding reject
contains-reject set [] a = refl
contains-reject set (x ∷ slice) a = ground (arith, contains-reject set slice a)

pub contains-remove_items :
    (slice to_remove : List String) (a : String)
    → contains (remove_items slice to_remove) a ≡ (contains slice a && not (contains to_remove a))
unfolding remove_items
contains-remove_items slice [] a = ground arith
contains-remove_items slice (x ∷ to_remove) a = contains-reject (x ∷ to_remove) slice a

-- The formats of a list after an override: those that are not excluded, and the additional ones.
abbrev pub overridden : List String → List String → List String → String → Bool
overridden formats exclude additional a =
    contains formats a && not (contains exclude a) || contains additional a

-- With overrides, a video preset prefers and rejects exactly the formats that it did, but for the
-- excluded ones, and the additional ones, which an exclusion does not touch. Its tiers and its cutoff
-- stay.
pub video_overridden :
    (p : VideoQualityPreset) (o : QualityOverrides) (a : String)
    → let q = apply_video_overrides p o in
      (contains q.preferred_formats a
        ≡ overridden p.preferred_formats o.exclude o.prefer_additional a)
      × (contains q.reject_formats a ≡ overridden p.reject_formats o.exclude o.reject_additional a)
      × (q.tiers ≡ p.tiers)
      × (q.upgrade_until ≡ p.upgrade_until)
unfolding apply_video_overrides
video_overridden p o a = (
  rw (contains-append, contains-remove_items),
  rw (contains-append, contains-remove_items),
  refl,
  refl,
)

-- With overrides, an audio preset prefers the formats and rejects the tiers that it did, but for the
-- excluded ones, and the additional ones, which an exclusion does not touch. Its tiers and its cutoff
-- stay.
pub audio_overridden :
    (p : AudioQualityPreset) (o : QualityOverrides) (a : String)
    → let q = apply_audio_overrides p o in
      (contains q.preferred_formats a
        ≡ overridden p.preferred_formats o.exclude o.prefer_additional a)
      × (contains q.reject_tiers a ≡ overridden p.reject_tiers o.exclude o.reject_additional a)
      × (q.tiers ≡ p.tiers)
      × (q.upgrade_until ≡ p.upgrade_until)
unfolding apply_audio_overrides
audio_overridden p o a = (
  rw (contains-append, contains-remove_items),
  rw (contains-append, contains-remove_items),
  refl,
  refl,
)
