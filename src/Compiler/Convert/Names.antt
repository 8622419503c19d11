-- ===== src/Compiler/Convert/Names.antt =====
-- internal/compiler/radarr.go: the names of implementations and of categories.
use nebularr_operator.Common.{
  String, ◌==◌, ◌||◌, string_eq, if◌then◌else◌, ℤ, pos, none, some, List, [], ◌∷◌, ◌++◌,
}
use nebularr_operator.Common.Text.{to_lower, has_part, atoi}
use nebularr_operator.Common.Dict.{Dict, lookup}
use nebularr_operator.Prowlarr.{is_positive}

unfoldable pub infer_implementation_from_name : String → String
unfolding to_lower has_part
infer_implementation_from_name name =
    let lower = to_lower name in
    if has_part lower "qbit" || has_part lower "qbittorrent"
    then "qbittorrent"
    else if has_part lower "transmission"
    then "transmission"
    else if has_part lower "deluge"
    then "deluge"
    else if has_part lower "rtorrent" || has_part lower "rutorrent"
    then "rtorrent"
    else if has_part lower "sabnzbd" || has_part lower "sab"
    then "sabnzbd"
    else if has_part lower "nzbget"
    then "nzbget"
    else "qbittorrent"

-- The type, or what the name says.
unfoldable pub implementation_of : String → String → String
unfolding infer_implementation_from_name
implementation_of type name = if type == "" then infer_implementation_from_name name else type

unfoldable pub normalize_implementation_name : String → String
unfolding to_lower
normalize_implementation_name impl =
    let lower = to_lower impl in
    if lower == "qbittorrent"
    then "QBittorrent"
    else if lower == "transmission"
    then "Transmission"
    else if lower == "deluge"
    then "Deluge"
    else if lower == "rtorrent"
    then "RTorrent"
    else if lower == "sabnzbd"
    then "Sabnzbd"
    else if lower == "nzbget"
    then "NzbGet"
    else impl

-- The URL is not read.
unfoldable pub infer_indexer_implementation : String → String → String
infer_indexer_implementation _ indexer_type =
    if indexer_type == "usenet" then "Newznab" else "Torznab"

abbrev pub categories : Dict String ℤ
categories =
    ("movies", pos 2000)
    ∷ ("movies-sd", pos 2030)
    ∷ ("movies-hd", pos 2040)
    ∷ ("movies-uhd", pos 2045)
    ∷ ("movies-4k", pos 2045)
    ∷ ("movies-bluray", pos 2050)
    ∷ ("movies-3d", pos 2060)
    ∷ ("tv", pos 5000)
    ∷ ("tv-sd", pos 5030)
    ∷ ("tv-hd", pos 5040)
    ∷ ("tv-uhd", pos 5045)
    ∷ ("tv-4k", pos 5045)
    ∷ ("audio", pos 3000)
    ∷ ("music", pos 3000)
    ∷ ("audio-mp3", pos 3010)
    ∷ ("audio-flac", pos 3040)
    ∷ ("audio-lossless", pos 3040)
    ∷ ("xxx", pos 6000)
    ∷ ("other", pos 7000)
    ∷ []

unfoldable pub category_or_zero : Dict String ℤ → String → ℤ
unfolding to_lower
category_or_zero table name = elim (lookup (to_lower name) table) [ none ↦ pos 0 | some id ↦ id ]

unfoldable pub map_category_name : String → ℤ
unfolding category_or_zero
map_category_name = category_or_zero categories

-- The number of a category: its text as a number, or that of its name.
unfoldable pub convert_category : (String → ℤ) → String → List ℤ
unfolding atoi is_positive
convert_category by_name cat =
    let (id, failed) = atoi cat in
    if failed then (if is_positive (by_name cat) then by_name cat ∷ [] else []) else id ∷ []

unfoldable pub convert_categories_by : (String → ℤ) → List String → List ℤ
unfolding convert_category
convert_categories_by by_name [] = []
convert_categories_by by_name (cat ∷ cats) =
    convert_category by_name cat ++ convert_categories_by by_name cats

unfoldable pub convert_categories : List String → List ℤ
unfolding convert_categories_by map_category_name
convert_categories = convert_categories_by map_category_name
