-- ===== src/Diff/Cleared.antt =====
-- The diffs against a representation that wants nothing, which a cleanup carries out.
use nebularr_operator.Common.{String, string_eq, ◌≡◌, none, List}
use nebularr_operator.Common.Dict.{lookup}
use nebularr_operator.Changes.{ChangeSet}
use nebularr_operator.Diff.Keyed.{Keyed, index}
use nebularr_operator.Diff.Keyed.Service.{Reading, serve}
use nebularr_operator.Diff.Keyed.Converge.{OnlyDeletes}

-- A change set only deletes, and a service that carries it out has nothing left under a key.
abbrev pub Clears : {A : Type 0} → Keyed A → Reading A → ChangeSet → List A → String → Type 0
Clears K R cs current key = OnlyDeletes cs × (lookup key (serve R cs (index K current)) ≡ none)
