-- ===== src/Compiler/Compile/Scores.antt =====
-- The scores of custom formats in a compiled representation.
use mathlib.Core.Bool.{false≢true}
use text.Mathlib.TextEquality.{eq_iff}
use text.Mathlib.TextLemmas.{append_inj, append_assoc}
use nebularr_operator.Common.{
  ℕ, String, ◌<>◌, Bool, true, false, not, ◌&&◌, ◌≡◌, ◌≢◌, refl, sym, ◌∙◌, arith, string_eq, int_eq,
  contains, ◌==◌, if◌then◌else◌, ℤ, pos, Option, none, some, List, [], ◌∷◌, inl, inr, Option-cases,
}
use nebularr_operator.Common.Dict.{Dict, lookup, insert, lookup-insert, lookup-nil}
use nebularr_operator.Changes.{is_nil}
use nebularr_operator.Ir.{Ir, QualityIr}
use nebularr_operator.Presets.Expander.{format_name}
use nebularr_operator.Presets.Expander.Laws.{names, is_some}
use nebularr_operator.Compiler.Types.{CompileInput, Capabilities, CustomFormatInput}
use nebularr_operator.Compiler.Resources.{owned_name}
use nebularr_operator.Compiler.Features.{
  add_scores, compile_format_scores, compile_custom_formats_to_ir,
}
use nebularr_operator.Compiler.Prune.{prune_quality, prune_unsupported}
use nebularr_operator.Compiler.Compile.{
  Hashable, has_formats, compile_quality, score_quality, compile_scored, compile_parts, prune_with,
  compile,
}

-- What a list of inputs says of a full name: the last score that is not zero.
abbrev pub score_of : String → String → List CustomFormatInput → Option ℤ
score_of config_name n [] = none
score_of config_name n (cf ∷ formats) = elim (score_of config_name n formats) [
  | some s ↦ some s
  | none ↦
      if n == owned_name config_name cf.name && not (cf.score == pos 0) then some cf.score else none
]

abbrev pub or_else {ℓ} : {A : Type ℓ} → Option A → Option A → Option A
or_else (some a) o = some a
or_else none o = o

or_else-none {ℓ} : {A : Type ℓ} (o : Option A) → or_else o none ≡ o
or_else-none none = refl
or_else-none (some a) = refl

lookup-add_scores :
    (c n : String) (formats : List CustomFormatInput) (scores : Dict String ℤ)
    → lookup n (add_scores c formats scores) ≡ or_else (score_of c n formats) (lookup n scores)
unfolding add_scores
lookup-add_scores c n [] scores = refl
lookup-add_scores c n (cf ∷ formats) scores = ground (
  arith,
  lookup-add_scores c n formats
      (if cf.score == pos 0 then scores else insert (owned_name c cf.name) cf.score scores),
  lookup-insert n (owned_name c cf.name) cf.score scores,
)

score_of-contains :
    (c n : String) (formats : List CustomFormatInput)
    → is_some (score_of c n formats) ≡ true
    → contains (names (compile_custom_formats_to_ir formats c)) n ≡ true
unfolding compile_custom_formats_to_ir
score_of-contains c n [] h = absurd (false≢true h)
score_of-contains c n (cf ∷ formats) h = ground (arith, score_of-contains c n formats)

-- The scores of the quality profile of a representation: the video profile's, or the audio profile's.
abbrev pub scores_of : Option QualityIr → Dict String ℤ
scores_of none = []
scores_of (some q) = elim q.video [
  | some video ↦ video.format_scores
  | none ↦ elim q.audio [ some audio ↦ audio.format_scores | none ↦ [] ]
]

scores-prune_quality :
    (caps : Capabilities) (q : Option QualityIr) → scores_of (prune_quality caps q).0 ≡ scores_of q
unfolding prune_quality
scores-prune_quality caps none = refl
scores-prune_quality caps (some q) = elim (Option-cases q.video) [
  | inl e ↦ rw e refl
  | inr (video, e) ↦ rw e refl
]

scores-prune_with :
    (caps : Option Capabilities) (ir : Ir)
    → scores_of (prune_with caps ir).quality ≡ scores_of ir.quality
unfolding prune_with prune_unsupported
scores-prune_with none ir = refl
scores-prune_with (some caps) ir = scores-prune_quality caps ir.quality

formats-prune_with :
    (caps : Option Capabilities) (ir : Ir) → (prune_with caps ir).custom_formats ≡ ir.custom_formats
unfolding prune_with prune_unsupported
formats-prune_with none ir = refl
formats-prune_with (some caps) ir = refl

scores-compile_scored :
    (input : CompileInput)
    → has_formats input ≡ true
    → is_nil input.custom_formats ≡ false
    → scores_of (compile_scored input)
      ≡ compile_format_scores input.custom_formats input.config_name
unfolding compile_scored compile_quality score_quality
scores-compile_scored input h nonempty = ground arith

-- A full name with the prefix of the operator is no name of a preset's format.
prefixes-ne : (r : Bool) → ◌≢◌ {A = String} "nebularr" (if r then "Reject: " else "Prefer: ")
prefixes-ne true e = false≢true ((eq_iff "nebularr" "Reject: ").1 e)
prefixes-ne false e = false≢true ((eq_iff "nebularr" "Prefer: ").1 e)

owned_name-ne : (c n : String) (r : Bool) (f : String) → owned_name c n ≢ format_name r f
owned_name-ne c n true f e = absurd (
    prefixes-ne true
      (append_inj {s₁ = "nebularr"} {s₂ = "Reject: "}
        (sym (append_assoc "nebularr" "-" (c <> "-" <> n)) ∙ e) refl).0)
owned_name-ne c n false f e = absurd (
    prefixes-ne false
      (append_inj {s₁ = "nebularr"} {s₂ = "Prefer: "}
        (sym (append_assoc "nebularr" "-" (c <> "-" <> n)) ∙ e) refl).0)

score_of-preset :
    (c : String) (r : Bool) (f : String) (formats : List CustomFormatInput)
    → score_of c (format_name r f) formats ≡ none
score_of-preset c r f [] = refl
score_of-preset c r f (cf ∷ formats) =
    ground (arith, score_of-preset c r f formats, owned_name-ne c cf.name r f)

module _ (digest : Hashable → String) (now : ℕ) where
  -- For Radarr, Sonarr and Lidarr, when the input has custom formats, the scores of the compiled
  -- quality profile are those of the inputs under their full names, the last one that is not zero for
  -- a name, whatever is pruned; and a name with a score is the name of one of the custom formats of
  -- the representation.
  pub compiled_scores :
      (input : CompileInput) (n : String)
      → has_formats input ≡ true
      → is_nil input.custom_formats ≡ false
      → let ir = compile digest now input in
        (lookup n (scores_of ir.quality) ≡ score_of input.config_name n input.custom_formats)
        × (is_some (lookup n (scores_of ir.quality)) ≡ true
            → contains (names ir.custom_formats) n ≡ true)
  unfolding compile compile_parts compile_format_scores
  compiled_scores input n h nonempty =
      let scored : lookup n (scores_of (compile digest now input).quality)
          ≡ score_of input.config_name n input.custom_formats =
        rw
          (
            scores-prune_with input.capabilities (compile_parts now input),
            scores-compile_scored input h nonempty,
            lookup-add_scores,
            lookup-nil,
          )
          (or_else-none _) in
      (
        scored,
        λ found.
            rw (formats-prune_with input.capabilities (compile_parts now input), h)
              (score_of-contains input.config_name n input.custom_formats (rw scored at found)),
      )

  -- When the input has custom formats, no format that the preset prefers or rejects keeps its score.
  pub preset_scores_lost :
      (input : CompileInput) (r : Bool) (f : String)
      → has_formats input ≡ true
      → is_nil input.custom_formats ≡ false
      → lookup (format_name r f) (scores_of (compile digest now input).quality) ≡ none
  preset_scores_lost input r f h nonempty =
      (compiled_scores input (format_name r f) h nonempty).0
      ∙ score_of-preset input.config_name r f input.custom_formats
