-- ===== src/Shared/Tags/Laws.antt =====
-- The ownership tag is created once.
use mathlib.Core.Option.{some-ne-none}
use mathlib.Core.Path.{subst}
use nebularr_operator.Common.{
  err-ne-ok, ok_inj, arith, ◌<>◌, String, string_eq, ◌==◌, Bool-cases, Option-cases, Result-cases,
  ◌≡◌, ◌⊎◌, refl, sym, ap, ◌∙◌, inl, inr, ℤ, none, some, List, [], ◌∷◌, ◌++◌, Result, ok, err,
}
use nebularr_operator.Shared.Tags.{
  TagResource, TagClient, ownership_tag_name, tag_endpoint, new_tag, find_tag, ensure_ownership_tag,
}

-- What a service does with its tags: a GET answers with them, unless it fails, and a POST that succeeds adds a
-- tag under an id of its own and answers with it.
pub record IsTagServer {S : Type 0} (c : TagClient S) (api_version : String)
    (tags : S → List TagResource) : Type 0 where
  pub answers :
      (s : S)
      → ((c.get (tag_endpoint api_version) s).0 ≡ ok (tags s))
        ⊎ ((m : String) × ((c.get (tag_endpoint api_version) s).0 ≡ err m))
  pub reads : (s : S) → tags (c.get (tag_endpoint api_version) s).1 ≡ tags s
  pub creates :
      (t created : TagResource) (s : S)
      → (c.post (tag_endpoint api_version) t s).0 ≡ ok created
      → (created.label ≡ t.label)
        × (tags (c.post (tag_endpoint api_version) t s).1 ≡ tags s ++ created ∷ [])

find_tag-append :
    (tags : List TagResource) (t : TagResource)
    → find_tag tags ≡ none
    → t.label ≡ ownership_tag_name
    → find_tag (tags ++ t ∷ []) ≡ some t.id
unfolding find_tag
find_tag-append [] t fresh e = ground (arith, e)
find_tag-append (x ∷ tags) t fresh e = elim (Bool-cases (x.label == ownership_tag_name)) [
  | inl own ↦ absurd (some-ne-none x.id (rw own at fresh))
  | inr other ↦ rw other (find_tag-append tags t (rw other at fresh) e)
]

module _ {S : Type 0} (c : TagClient S) (api_version : String) (tags : S → List TagResource)
    (server : IsTagServer c api_version tags) where
  -- A GET that is answered.
  abbrev pub IsAnswered : S → Type 0
  IsAnswered s = (c.get (tag_endpoint api_version) s).0 ≡ ok (tags s)

  found-eq :
      (s : S) (id : ℤ)
      → IsAnswered s
      → find_tag (tags s) ≡ some id
      → ensure_ownership_tag c api_version s ≡ (ok id, (c.get (tag_endpoint api_version) s).1)
  unfolding ensure_ownership_tag
  found-eq s id answered found = rw (ensure_ownership_tag, answered, found) refl

  created-eq :
      (s : S) (t : TagResource)
      → IsAnswered s
      → find_tag (tags s) ≡ none
      → let (result, s') =
          c.post (tag_endpoint api_version) new_tag (c.get (tag_endpoint api_version) s).1 in
        result ≡ ok t → ensure_ownership_tag c api_version s ≡ (ok t.id, s')
  unfolding ensure_ownership_tag
  created-eq s t answered fresh done = rw (ensure_ownership_tag, answered, fresh, done) refl

  refused-eq :
      (s : S) (m : String)
      → IsAnswered s
      → find_tag (tags s) ≡ none
      → let (result, s') =
          c.post (tag_endpoint api_version) new_tag (c.get (tag_endpoint api_version) s).1 in
        result ≡ err m
        → ensure_ownership_tag c api_version s ≡ (err ("failed to create ownership tag: " <> m), s')
  unfolding ensure_ownership_tag
  refused-eq s m answered fresh done = rw (ensure_ownership_tag, answered, fresh, done) refl

  -- The tag of an id is the one that was there before, or the one that was added.
  abbrev pub IsOneTag : ℤ → S → S → Type 0
  IsOneTag id s s' =
      (find_tag (tags s') ≡ some id)
      × (((find_tag (tags s) ≡ some id) × (tags s' ≡ tags s))
          ⊎ ((find_tag (tags s) ≡ none) × ((t : TagResource) × (tags s' ≡ tags s ++ t ∷ []))))

  abbrev IsOwned : S → Result ℤ × S → Type 0
  IsOwned s o =
      (id : ℤ)
      → o.0 ≡ ok id
      → IsOneTag id s o.1
        × (IsAnswered o.1
            → ensure_ownership_tag c api_version o.1
              ≡ (ok id, (c.get (tag_endpoint api_version) o.1).1))

  ensure-IsOwned : (s : S) → IsAnswered s → IsOwned s (ensure_ownership_tag c api_version s)
  ensure-IsOwned s answered =
      let s₁ = (c.get (tag_endpoint api_version) s).1 in
      let s₂ = (c.post (tag_endpoint api_version) new_tag s₁).1 in
      elim (Option-cases (find_tag (tags s))) [
        | inr (j, found) ↦ subst (IsOwned s) (sym (found-eq s j answered found)) (λ id e.
            let here : find_tag (tags s) ≡ some id = found ∙ ap some (ok_inj j id e) in
            let still : find_tag (tags s₁) ≡ some id = ap find_tag (server.reads s) ∙ here in
            ((still, inl (here, server.reads s)), λ again. found-eq s₁ id again still))
        | inl fresh ↦ elim (Result-cases (c.post (tag_endpoint api_version) new_tag s₁).0) [
          | inr (m, e) ↦
              subst (IsOwned s) (sym (refused-eq s m answered fresh e))
                (λ id f. absurd (err-ne-ok _ id f))
          | inl (t, e) ↦ subst (IsOwned s) (sym (created-eq s t answered fresh e)) (λ id f.
              let (labelled, added) = server.creates new_tag t s₁ e in
              let grown : tags s₂ ≡ tags s ++ t ∷ [] =
                added ∙ ap (λ (l : List TagResource). l ++ t ∷ []) (server.reads s) in
              let there : find_tag (tags s₂) ≡ some id =
                ap find_tag grown
                ∙ (find_tag-append (tags s) t fresh labelled ∙ ap some (ok_inj t.id id f)) in
              ((there, inr (fresh, (t, grown))), λ again. found-eq s₂ id again there))
        ]
      ]

  unanswered-eq :
      (s : S) (m : String)
      → (c.get (tag_endpoint api_version) s).0 ≡ err m
      → let (result, s') =
          c.post (tag_endpoint api_version) new_tag (c.get (tag_endpoint api_version) s).1 in
        ensure_ownership_tag c api_version s ≡ (
          elim result [
            | err e ↦ err ("failed to create ownership tag: " <> e)
            | ok tag ↦ ok tag.id
          ],
          s',
        )
  unfolding ensure_ownership_tag
  unanswered-eq s m failed = rw (ensure_ownership_tag, failed) refl

  -- A tag of the operator was added under the id, whether or not there was one.
  abbrev pub IsAdded : ℤ → S → S → Type 0
  IsAdded id s s' =
      (t : TagResource) × (tags s' ≡ tags s ++ t ∷ [])
      × (t.label ≡ ownership_tag_name)
      × (t.id ≡ id)

  unanswered-IsAdded :
      (s : S) (m : String) (id : ℤ)
      → (c.get (tag_endpoint api_version) s).0 ≡ err m
      → (ensure_ownership_tag c api_version s).0 ≡ ok id
      → IsAdded id s (ensure_ownership_tag c api_version s).1
  unanswered-IsAdded s m id failed done =
      let s₁ = (c.get (tag_endpoint api_version) s).1 in
      let run = unanswered-eq s m failed in
      elim (Result-cases (c.post (tag_endpoint api_version) new_tag s₁).0) [
        | inr (e, refused) ↦ absurd (
            err-ne-ok ("failed to create ownership tag: " <> e) id
              (sym (ap (λ o. o.0) run ∙ rw refused refl) ∙ done))
        | inl (t, created) ↦
            let (labelled, added) = server.creates new_tag t s₁ created in
            (
              t,
              ap (λ o. tags o.1) run
                  ∙ added
                  ∙ ap (λ (l : List TagResource). l ++ t ∷ []) (server.reads s),
              labelled,
              ok_inj t.id id (sym (ap (λ o. o.0) run ∙ rw created refl) ∙ done),
            )
      ]

  -- If `EnsureOwnershipTag` returns an id, then either the service answered with its tags, and the id is that of
  -- the tag of the operator in it, which was there before and nothing was changed, or which is the one tag that was
  -- added, and another call that is answered returns the same id and adds no tag; or the service did not answer, and
  -- a tag of the operator was added under the id, whether or not there was one.
  pub ensure-IsOneTag :
      (s : S) (id : ℤ)
      → let (result, s') = ensure_ownership_tag c api_version s in
        result ≡ ok id
        → (IsAnswered s
            × IsOneTag id s s'
            × (IsAnswered s'
                → ensure_ownership_tag c api_version s'
                  ≡ (ok id, (c.get (tag_endpoint api_version) s').1)))
          ⊎ ((m : String) × ((c.get (tag_endpoint api_version) s).0 ≡ err m) × IsAdded id s s')
  ensure-IsOneTag s id done = elim (server.answers s) [
    | inl answered ↦
        let (one, again) = ensure-IsOwned s answered id done in inl (answered, one, again)
    | inr (m, failed) ↦ inr (m, failed, unanswered-IsAdded s m id failed done)
  ]
