-- ===== src/Shared/Fields.antt =====
-- internal/adapters/shared/types.go and clients.go: the fields of resources. `to_int` is the conversion `int(v)`
-- of a float64 that JSON has brought.
use nebularr_operator.Common.{
  String, string_eq, int_eq, ◌==◌, if◌then◌else◌, Bool, ℤ, contains, List, [], ◌∷◌, ◌++◌,
}
use nebularr_operator.Ir.{Any, Anys, Float64, DownloadClientIr, IndexerIr}

pub record Field : Type 0 where
  pub name : String
  pub value : Any

-- Type assertions.
abbrev pub as_text : Any → String → String
as_text (Any.text s) old = s
as_text Any.null old = old
as_text (Any.number x) old = old
as_text (Any.flag b) old = old
as_text (Any.array l) old = old
as_text (Any.object o) old = old

abbrev pub as_flag : Any → Bool → Bool
as_flag (Any.flag b) old = b
as_flag Any.null old = old
as_flag (Any.text s) old = old
as_flag (Any.number x) old = old
as_flag (Any.array l) old = old
as_flag (Any.object o) old = old

abbrev pub as_number {ℓ} : {A : Type ℓ} → (Float64 → A) → Any → A → A
as_number convert (Any.number x) old = convert x
as_number convert Any.null old = old
as_number convert (Any.text s) old = old
as_number convert (Any.flag b) old = old
as_number convert (Any.array l) old = old
as_number convert (Any.object o) old = old

module _ (to_int : Float64 → ℤ) where
  -- The loop over `[]interface{}`.
  unfoldable pub numbers : Anys → List ℤ
  numbers Anys.nil = []
  numbers (Anys.cons v l) = as_number (λ x. to_int x ∷ []) v [] ++ numbers l

  abbrev pub add_numbers : Any → List ℤ → List ℤ
  add_numbers (Any.array l) old = old ++ numbers l
  add_numbers Any.null old = old
  add_numbers (Any.text s) old = old
  add_numbers (Any.number x) old = old
  add_numbers (Any.flag b) old = old
  add_numbers (Any.object o) old = old

  unfoldable pub extract_client_field : List String → Field → DownloadClientIr → DownloadClientIr
  extract_client_field category_names f ir =
      if f.name == "host"
      then record ir { host = as_text f.value ir.host }
      else if f.name == "port"
      then record ir { port = as_number to_int f.value ir.port }
      else if f.name == "useSsl"
      then record ir { use_tls = as_flag f.value ir.use_tls }
      else if f.name == "username"
      then record ir { username = as_text f.value ir.username }
      else if f.name == "password"
      then record ir { password = as_text f.value ir.password }
      else if f.name == "directory"
      then record ir { directory = as_text f.value ir.directory }
      else if contains category_names f.name
      then record ir { category = as_text f.value ir.category }
      else ir

  unfoldable pub extract_download_client_fields :
      List String → List Field → DownloadClientIr → DownloadClientIr
  unfolding extract_client_field
  extract_download_client_fields category_names [] ir = ir
  extract_download_client_fields category_names (f ∷ fields) ir =
      extract_download_client_fields category_names fields
        (extract_client_field category_names f ir)

  unfoldable pub extract_indexer_field : Field → IndexerIr → IndexerIr
  unfolding numbers
  extract_indexer_field f ir =
      if f.name == "baseUrl"
      then record ir { url = as_text f.value ir.url }
      else if f.name == "apiKey"
      then record ir { api_key = as_text f.value ir.api_key }
      else if f.name == "categories"
      then record ir { categories = add_numbers f.value ir.categories }
      else if f.name == "minimumSeeders"
      then record ir { minimum_seeders = as_number to_int f.value ir.minimum_seeders }
      else if f.name == "seedCriteria.seedRatio"
      then record ir { seed_ratio = as_number (λ (x : Float64). x) f.value ir.seed_ratio }
      else if f.name == "seedCriteria.seedTime"
      then record ir { seed_time_minutes = as_number to_int f.value ir.seed_time_minutes }
      else ir

  unfoldable pub extract_indexer_fields : List Field → IndexerIr → IndexerIr
  unfolding extract_indexer_field
  extract_indexer_fields [] ir = ir
  extract_indexer_fields (f ∷ fields) ir =
      extract_indexer_fields fields (extract_indexer_field f ir)
