-- ===== src/Tests/Compiled.antt =====
-- Compiled representations.
use nebularr_operator.Common.{String, string_eq, true, false, ◌≡◌, refl, none, [], ◌∷◌, contains}
use nebularr_operator.Common.Dict.{lookup}
use nebularr_operator.Changes.{empty_changes}
use nebularr_operator.Diff.Delay.{diff_delay_profiles}
use nebularr_operator.Presets.Expander.{format_name}
use nebularr_operator.Presets.Expander.Laws.{names, is_some}
use nebularr_operator.Compiler.Features.{
  compile_import_lists_to_ir, compile_media_management_to_ir, compile_authentication_to_ir,
  compile_delay_profiles_to_ir,
}
use nebularr_operator.Compiler.Compile.{Hashable, has_formats, compile}
use nebularr_operator.Compiler.Compile.Scores.{
  score_of, scores_of, compiled_scores, preset_scores_lost,
}
use nebularr_operator.Compiler.Compile.Laws.{hash_unaware, compiled_profiles_stable}
use nebularr_operator.Tests.Data.{input, profile_input, list_input}

abbrev digest : Hashable → String
digest h = h.config_name

radarr_has_formats : has_formats input ≡ true
unfolding string_eq
radarr_has_formats = refl

compiled_scores_example :
    let ir = compile digest 1700 input in
    (lookup "nebularr-movies-remux" (scores_of ir.quality)
      ≡ score_of input.config_name "nebularr-movies-remux" input.custom_formats)
    × (is_some (lookup "nebularr-movies-remux" (scores_of ir.quality)) ≡ true
        → contains (names ir.custom_formats) "nebularr-movies-remux" ≡ true)
compiled_scores_example =
    compiled_scores digest 1700 input "nebularr-movies-remux" radarr_has_formats refl

preset_scores_lost_example :
    lookup (format_name false "hdr10") (scores_of (compile digest 1700 input).quality) ≡ none
preset_scores_lost_example =
    preset_scores_lost digest 1700 input false "hdr10" radarr_has_formats refl

hash_unaware_example :
    let changed = compile digest 1700 (record input {
      import_lists = list_input "trakt" ∷ [];
      media_management = none;
      authentication = none;
    }) in
    (changed.source_hash ≡ (compile digest 1700 input).source_hash)
    × (changed.import_lists ≡ compile_import_lists_to_ir (list_input "trakt" ∷ []))
    × (changed.media_management ≡ compile_media_management_to_ir none)
    × (changed.authentication ≡ compile_authentication_to_ir none)
hash_unaware_example = hash_unaware digest 1700 input (list_input "trakt" ∷ []) none none

compiled_profiles_stable_example :
    let ds = compile_delay_profiles_to_ir (profile_input "default" ∷ profile_input "slow" ∷ []) in
    diff_delay_profiles ds ds empty_changes ≡ empty_changes
compiled_profiles_stable_example =
    compiled_profiles_stable (profile_input "default" ∷ profile_input "slow" ∷ []) empty_changes
      (refl, (refl, tt))
