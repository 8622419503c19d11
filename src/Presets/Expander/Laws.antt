-- ===== src/Presets/Expander/Laws.antt =====
-- The scores of an expanded video preset.
use mathlib.Core.Bool.{false≢true}
use mathlib.Core.List.{map-append}
use text.Mathlib.TextEquality.{eq_iff}
use text.Mathlib.TextLemmas.{append_cancel_left, append_inj}
use nebularr_operator.Common.{
  String, Bool, true, false, not, ◌&&◌, ◌≡◌, ◌≢◌, refl, sym, ◌∙◌, arith, string_eq, contains,
  if◌then◌else◌, ℤ, pos, Option, none, some, List, [], ◌∷◌, map, contains-append, ◌⊎◌, inl, inr,
}
use nebularr_operator.Common.Dict.{lookup, lookup-insert, lookup-nil}
use nebularr_operator.Changes.{is_nil}
use nebularr_operator.Ir.{CustomFormatIr, FormatSpecIr}
use nebularr_operator.Presets.Video.{VideoQualityPreset}
use nebularr_operator.Presets.Override.{QualityOverrides}
use nebularr_operator.Presets.Expander.{
  get_format_specs, format_name, format_to_custom_format, Scored, add_format, add_formats,
  preferred_score, rejected_score, video_preset_ir, select_video_preset, expand_video_preset,
}

abbrev pub is_some {ℓ} : {A : Type ℓ} → Option A → Bool
is_some none = false
is_some (some _) = true

abbrev pub names : List CustomFormatIr → List String
names = map (λ (cf : CustomFormatIr). cf.name)

-- The program has a pattern for the format.
abbrev pub is_known : String → Bool
is_known format = not (is_nil (get_format_specs format))

format_name_injective : (r : Bool) (f g : String) → format_name r f ≡ format_name r g → f ≡ g
format_name_injective true f g e = append_cancel_left "Reject: " f g e
format_name_injective false f g e = append_cancel_left "Prefer: " f g e

prefixes-ne : ◌≢◌ {A = String} "Reject: " "Prefer: "
prefixes-ne e = false≢true ((eq_iff "Reject: " "Prefer: ").1 e)

format_name-ne : (f g : String) → format_name true f ≢ format_name false g
format_name-ne f g e =
    absurd (prefixes-ne (append_inj {s₁ = "Reject: "} {s₂ = "Prefer: "} e refl).0)

-- A format gives a custom format of its name if it is known, and none otherwise.
format_cases :
    (format : String) (r : Bool)
    → ((is_known format ≡ false) × (format_to_custom_format format r ≡ none))
      ⊎ ((cf : CustomFormatIr) × (is_known format ≡ true)
          × (format_to_custom_format format r ≡ some cf)
          × (cf.name ≡ format_name r format))
unfolding format_to_custom_format
format_cases format r = go (get_format_specs format) refl
  where
    go :
        (specs : List FormatSpecIr)
        → get_format_specs format ≡ specs
        → ((is_known format ≡ false) × (format_to_custom_format format r ≡ none))
          ⊎ ((cf : CustomFormatIr) × (is_known format ≡ true)
              × (format_to_custom_format format r ≡ some cf)
              × (cf.name ≡ format_name r format))
    go [] e = inl (rw e, rw e)
    go (spec ∷ specs) e = inr (
      record {
        id = pos 0;
        name = format_name r format;
        include_when_renaming = false;
        specifications = spec ∷ specs;
      },
      rw e refl,
      rw e refl,
      refl,
    )

lookup-add_formats :
    (r : Bool) (score : ℤ) (formats : List String) (s : Scored) (f : String)
    → lookup (format_name r f) (add_formats r score formats s).1
      ≡ (if contains formats f && is_known f then some score else lookup (format_name r f) s.1)
unfolding add_formats
lookup-add_formats r score [] s f = refl
lookup-add_formats r score (x ∷ formats) s f = elim (format_cases x r) [
  | inl (unknown, e) ↦ ground (
    arith,
    lookup-add_formats r score formats (add_format (format_to_custom_format x r) score s) f,
  )
  | inr (cf, known, e, named) ↦ ground (
    arith,
    lookup-add_formats r score formats (add_format (format_to_custom_format x r) score s) f,
    lookup-insert (format_name r f) cf.name score s.1,
    format_name_injective r f x,
  )
]

lookup-add_formats_other :
    (r r' : Bool) (score : ℤ) (formats : List String) (s : Scored) (f : String)
    → ((g : String) → format_name r' f ≢ format_name r g)
    → lookup (format_name r' f) (add_formats r score formats s).1 ≡ lookup (format_name r' f) s.1
unfolding add_formats
lookup-add_formats_other r r' score [] s f ne = refl
lookup-add_formats_other r r' score (x ∷ formats) s f ne = elim (format_cases x r) [
  | inl (unknown, e) ↦ ground (
    arith,
    lookup-add_formats_other r r' score formats (add_format (format_to_custom_format x r) score s) f
        ne,
  )
  | inr (cf, known, e, named) ↦ ground (
    arith,
    lookup-add_formats_other r r' score formats (add_format (format_to_custom_format x r) score s) f
        ne,
    lookup-insert (format_name r' f) cf.name score s.1,
    ne x,
  )
]

names-add_format :
    (score : ℤ) (s : Scored)
    → ((n : String) → contains (names s.0) n ≡ is_some (lookup n s.1))
    → (cf : Option CustomFormatIr) (n : String)
    → let t = add_format cf score s in contains (names t.0) n ≡ is_some (lookup n t.1)
names-add_format score s h none n = h n
names-add_format score s h (some cf) n =
    rw (map-append, contains-append) (ground (arith, h n, lookup-insert n cf.name score s.1))

-- Every score is that of a custom format of the list, and every custom format has a score.
names-add_formats :
    (r : Bool) (score : ℤ) (formats : List String) (s : Scored)
    → ((n : String) → contains (names s.0) n ≡ is_some (lookup n s.1))
    → (n : String)
    → let t = add_formats r score formats s in contains (names t.0) n ≡ is_some (lookup n t.1)
unfolding add_formats
names-add_formats r score [] s h n = h n
names-add_formats r score (x ∷ formats) s h n =
    names-add_formats r score formats (add_format (format_to_custom_format x r) score s)
      (names-add_format score s h (format_to_custom_format x r)) n

preset_scores :
    (p : VideoQualityPreset) (profile_name f n : String)
    → let q = video_preset_ir p profile_name in
      (lookup (format_name false f) q.format_scores
        ≡ (if contains p.preferred_formats f && is_known f then some preferred_score else none))
      × (lookup (format_name true f) q.format_scores
          ≡ (if contains p.reject_formats f && is_known f then some rejected_score else none))
      × (contains (names q.custom_formats) n ≡ is_some (lookup n q.format_scores))
unfolding video_preset_ir
preset_scores p profile_name f n =
    let none_yet : Scored = ([], []) in
    let preferred = add_formats false preferred_score p.preferred_formats none_yet in
    (
      lookup-add_formats_other true false rejected_score p.reject_formats preferred f
            (λ g e. format_name-ne g f (sym e))
          ∙ (lookup-add_formats false preferred_score p.preferred_formats none_yet f
              ∙ rw lookup-nil),
      lookup-add_formats true rejected_score p.reject_formats preferred f
          ∙ rw (
            lookup-add_formats_other false true preferred_score p.preferred_formats none_yet f
                (format_name-ne f),
            lookup-nil,
          ),
      names-add_formats true rejected_score p.reject_formats preferred
          (names-add_formats false preferred_score p.preferred_formats none_yet
            (λ m. rw lookup-nil))
          n,
    )

-- In an expanded video preset a format has the score 100 under its preferred name exactly if the
-- preset (with the overrides) prefers it and the program knows it, and the score -10000 under its
-- rejected name exactly if the preset rejects it and the program knows it. A name has a score exactly
-- if it is the name of one of the custom formats.
pub video_scores :
    (preset_name : String) (overrides : Option QualityOverrides) (profile_name f n : String)
    → let p = select_video_preset preset_name overrides in
      let q = expand_video_preset preset_name overrides profile_name in
      (lookup (format_name false f) q.format_scores
        ≡ (if contains p.preferred_formats f && is_known f then some preferred_score else none))
      × (lookup (format_name true f) q.format_scores
          ≡ (if contains p.reject_formats f && is_known f then some rejected_score else none))
      × (contains (names q.custom_formats) n ≡ is_some (lookup n q.format_scores))
unfolding expand_video_preset
video_scores preset_name overrides profile_name f n =
    let p = select_video_preset preset_name overrides in preset_scores p profile_name f n
