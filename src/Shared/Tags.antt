-- ===== src/Shared/Tags.antt =====
-- internal/adapters/shared/tags.go: the tag that marks what the operator owns.
pub mod Laws
use nebularr_operator.Common.{
  String, ◌<>◌, string_eq, ◌==◌, if◌then◌else◌, ℤ, pos, Option, none, some, List, [], ◌∷◌, Result,
  ok, err,
}

pub record TagResource : Type 0 where
  pub id : ℤ
  pub label : String

-- The part of the HTTP client for tags.
pub record TagClient (S : Type 0) : Type 0 where
  pub get : String → S → Result (List TagResource) × S
  pub post : String → TagResource → S → Result TagResource × S

abbrev pub ownership_tag_name : String
ownership_tag_name = "nebularr-managed"

abbrev pub tag_endpoint : String → String
tag_endpoint api_version = "/api/" <> api_version <> "/tag"

abbrev pub new_tag : TagResource
new_tag = record { id = pos 0; label = ownership_tag_name }

-- The loop over the tags.
unfoldable pub find_tag : List TagResource → Option ℤ
find_tag [] = none
find_tag (tag ∷ tags) =
    let rest = find_tag tags in if tag.label == ownership_tag_name then some tag.id else rest

module _ {S : Type 0} (c : TagClient S) (api_version : String) where
  unfoldable pub get_ownership_tag_id : S → Result ℤ × S
  unfolding find_tag
  get_ownership_tag_id s =
      let (r, s') = c.get (tag_endpoint api_version) s in
      (
        elim r [
          | err e ↦ err ("failed to get tags: " <> e)
          | ok tags ↦ elim (find_tag tags) [
            | some id ↦ ok id
            | none ↦ err "ownership tag \"nebularr-managed\" not found"
          ]
        ],
        s',
      )

  -- Any error of the search leads to the creation.
  unfoldable pub ensure_ownership_tag : S → Result ℤ × S
  unfolding get_ownership_tag_id
  ensure_ownership_tag s =
      let (found, s₁) = get_ownership_tag_id s in
      elim found [
        | ok id ↦ (ok id, s₁)
        | err e ↦
            let (created, s₂) = c.post (tag_endpoint api_version) new_tag s₁ in
            (
              elim created [
                | err m ↦ err ("failed to create ownership tag: " <> m)
                | ok tag ↦ ok tag.id
              ],
              s₂,
            )
      ]
