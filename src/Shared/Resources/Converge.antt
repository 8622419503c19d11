-- ===== src/Shared/Resources/Converge.antt =====
-- The download clients that were sent to a service need no further change.
use nebularr_operator.Common.{
  String, string_eq, bool_eq, int_eq, ◌==◌, true, false, Bool-cases, ◌≡◌, ◌⊎◌, refl, ap, ◌∙◌, inl,
  inr, arith, ℤ, Option, none, some, List, [], ◌∷◌, ◌++◌, map, All,
}
use nebularr_operator.Common.Dict.{Dict, lookup, insert, lookup-insert, lookup-nil}
use nebularr_operator.Common.Range.{RangeOrder}
use nebularr_operator.Ir.{Float64, of_int, DownloadClientIr}
use nebularr_operator.Changes.{ChangeSet}
use nebularr_operator.Diff.Keyed.{index_onto}
use nebularr_operator.Diff.Clients.{
  download_clients, download_clients_equal, diff_download_clients_with_ir,
}
use nebularr_operator.Diff.Clients.Laws.{settled_client, clients_stable}
use nebularr_operator.Shared.Resources.{
  DownloadClientResource, Service, has_tag, managed_download_clients,
}
use nebularr_operator.Shared.Resources.Laws.{
  is_exact, IsService, sent_client, known_client, managed_clients_back,
}

module _ (service : Service) (tag_id : ℤ) where
  abbrev known : ℤ × DownloadClientIr → DownloadClientIr
  known = known_client service tag_id

  known_equal : (s : ℤ × DownloadClientIr) → download_clients_equal (known s) s.1 ≡ true
  unfolding download_clients_equal
  known_equal s = ground arith

  -- What is known under a name, and what is wanted under it.
  abbrev IsAgreed : Option DownloadClientIr → Option DownloadClientIr → Type 0
  IsAgreed a b =
      ((a ≡ none) × (b ≡ none))
      ⊎ ((s : ℤ × DownloadClientIr) × (a ≡ some (known s)) × (b ≡ some s.1))

  index-IsAgreed :
      (sent : List (ℤ × DownloadClientIr)) (m m' : Dict String DownloadClientIr) (name : String)
      → ((n : String) → IsAgreed (lookup n m) (lookup n m'))
      → IsAgreed (lookup name (index_onto download_clients m (map known sent))) (
          lookup name
            (index_onto download_clients m' (map (λ (s : ℤ × DownloadClientIr). s.1) sent)))
  unfolding index_onto
  index-IsAgreed [] m m' name h = h name
  index-IsAgreed (s ∷ sent) m m' name h =
      index-IsAgreed sent (insert s.1.name (known s) m) (insert s.1.name s.1 m') name (λ n.
        elim (Bool-cases (n == s.1.name)) [
          | inl same ↦ inr (
            s,
            lookup-insert n s.1.name (known s) m ∙ rw same refl,
            lookup-insert n s.1.name s.1 m' ∙ rw same refl,
          )
          | inr other ↦ elim (h n) [
            | inl (a, b) ↦ inl (
              lookup-insert n s.1.name (known s) m ∙ rw other a,
              lookup-insert n s.1.name s.1 m' ∙ rw other b,
            )
            | inr (t, a, b) ↦ inr (
              t,
              lookup-insert n s.1.name (known s) m ∙ rw other a,
              lookup-insert n s.1.name s.1 m' ∙ rw other b,
            )
          ]
        ])

  agreed_settled : (a b : Option DownloadClientIr) → IsAgreed a b → a ≡ settled_client a b
  agreed_settled a b (inl (e, f)) = rw (e, f) refl
  agreed_settled a b (inr (s, e, f)) = rw (e, f, known_equal s) refl

  -- The adapter of Sonarr or Lidarr reads back the download clients that were sent under the tag of the operator, in
  -- their order and under the ids that the service gave, but for their directory, which is never sent, and none of
  -- the resources of others; and the diff between what it reads and what was sent adds no change. The ports are
  -- numbers that a float64 has exactly, and these are converted exactly.
  pub clients_converge :
      (to_int : Float64 → ℤ) (od oc : RangeOrder (String × DownloadClientIr))
      (sent : List (ℤ × DownloadClientIr)) (foreign : List DownloadClientResource)
      (changes : ChangeSet)
      → ((n : ℤ) → is_exact n ≡ true → to_int (of_int n) ≡ n)
      → IsService service
      → All (λ (s : ℤ × DownloadClientIr). is_exact s.1.port ≡ true) sent
      → All (λ (r : DownloadClientResource). has_tag r.tags tag_id ≡ false) foreign
      → let after =
          managed_download_clients service to_int
            (map (sent_client service tag_id) sent ++ foreign)
            tag_id in
        (after ≡ map (known_client service tag_id) sent)
        × (diff_download_clients_with_ir od oc after
              (map (λ (s : ℤ × DownloadClientIr). s.1) sent)
              changes
            ≡ changes)
  clients_converge to_int od oc sent foreign changes exact is_one ports others =
      let back =
        managed_clients_back to_int exact service tag_id sent foreign is_one ports others in
      let wanted = map (λ (s : ℤ × DownloadClientIr). s.1) sent in
      let after = map (known_client service tag_id) sent in
      (
        back,
        ap (λ (l : List DownloadClientIr). diff_download_clients_with_ir od oc l wanted changes)
              back
            ∙ clients_stable od oc after wanted after
                (λ name.
                  agreed_settled _ _
                    (index-IsAgreed sent [] [] name (λ n. inl (lookup-nil n, lookup-nil n))))
                changes,
      )
