-- ===== src/Tests/Coordinated.antt =====
-- A coordination of one Radarr with an empty Prowlarr.
use mathlib.Core.Path.{subst}
use mathlib.Core.Option.{some-ne-none}
use nebularr_operator.Api.{ProwlarrRef}
use nebularr_operator.Common.{
  ◌≢◌, ok_inj, ℕ, suc, ◌++◌, String, string_eq, int_eq, if◌then◌else◌, ◌==◌, Bool, true, false, ◌≡◌,
  refl, sym, pos, Option, none, some, List, [], ◌∷◌, ok, All,
}
use nebularr_operator.Common.Dict.{lookup}
use nebularr_operator.Api.Kinds.{ProwlarrConfig}
use nebularr_operator.Prowlarr.{ApplicationResource, ProwlarrApi, is_positive}
use nebularr_operator.Prowlarr.Named.{without}
use nebularr_operator.Prowlarr.Server.{IsServer, IsDistinct}
use nebularr_operator.Controller.Coordinator.{AppConfig, FetchedProwlarr, Coordinator, reference_of}
use nebularr_operator.Controller.Coordinator.Process.{app_kinds, coordinate, process_app_config}
use nebularr_operator.Controller.Coordinator.Laws.{IsUnique, wants}
use nebularr_operator.Controller.Coordinator.Complete.{
  IsCoordinated, connection_to, coordinate-IsCoordinated,
}
use nebularr_operator.Controller.Coordinator.Reports.{
  IsReported, Claims, process_app_config-IsReported,
}
use nebularr_operator.Tests.Prowlarred.{answer-inj, refused}

-- A Prowlarr with room for one application.
abbrev World : Type 0
World = Option ApplicationResource

abbrev stored : World → List ApplicationResource
stored none = []
stored (some a) = record a { id = pos 1 } ∷ []

abbrev add : ApplicationResource → World → Option String × World
add a none = (none, some a)
add a (some b) = (some refused, some b)

abbrev small : ProwlarrApi World
small = record {
  get = λ conn path s. (ok (stored s), s);
  post = λ conn path a s. add a s;
  put = λ conn path a s. (some refused, s);
  delete = λ conn path s. (some refused, s);
}

abbrev radarr : AppConfig
radarr = record {
  name = "main";
  namespace = "media";
  indexers = some (record {
    prowlarr_ref =
        some (record { name = "prowlarr"; auto_register = none; include = []; exclude = [] });
    direct = [];
  });
  url = "http://radarr:7878";
  registration = none;
}

abbrev prowlarr : ProwlarrConfig
prowlarr = record {
  name = "prowlarr";
  namespace = "media";
  spec = record {
    connection = record {
      url = "http://prowlarr:9696";
      api_key_secret_ref = none;
      config_path = "";
      insecure_skip_verify = false;
      timeout = none;
    };
    indexers = [];
    proxies = [];
    applications = [];
    download_clients = [];
    authentication = none;
    reconciliation = none;
  };
}

abbrev listed : String → List AppConfig
listed kind = if kind == "radarr" then radarr ∷ [] else []

-- A cluster in which every secret has a key.
abbrev coordinator : Coordinator World
coordinator = record {
  get_secret = λ namespace name. ok (("apiKey", "secret") ∷ []);
  get_prowlarr = λ namespace name s. FetchedProwlarr.not_found;
  list = λ kind namespace s. ok (listed kind);
  update_status = λ kind app s. (none, s);
  prowlarr = small;
  now = 1700;
}

nothing_deleted :
    (s : World)
    → All
        (λ (a : ApplicationResource). some refused ≡ none → stored s ≡ without a.id (stored s))
        (stored s)
nothing_deleted none = tt
nothing_deleted (some a) = ((λ e. absurd (some-ne-none refused e)), tt)

add_appends :
    (a : ApplicationResource) (s : World)
    → (add a s).0 ≡ none
    → (n : ℕ) × (stored (add a s).1 ≡ stored s ++ record a { id = pos (suc n) } ∷ [])
add_appends a none e = (0, refl)
add_appends a (some b) e = absurd (some-ne-none refused e)

small-IsServer : IsServer small (connection_to prowlarr []) stored
small-IsServer = record {
  answers = λ s l e. answer-inj (sym e);
  reads = λ s. refl;
  creates = add_appends;
  updates = λ a s e. absurd (some-ne-none refused e);
  removes = nothing_deleted;
}

stored-IsDistinct : (s : World) → IsDistinct (stored s)
unfolding is_positive
stored-IsDistinct none = record { positive = tt; same = tt }
stored-IsDistinct (some a) = record {
  positive = (refl, tt);
  same = ((((λ e. refl), λ e. refl), tt), tt);
}

one-IsUnique :
    (b : Bool) (l : List AppConfig) → ok (if b then radarr ∷ [] else []) ≡ ok l → IsUnique l
one-IsUnique true l e = subst IsUnique (ok_inj _ _ e) (tt, tt)
one-IsUnique false l e = subst IsUnique (ok_inj _ _ e) tt

listed-IsUnique : (kind : String) (l : List AppConfig) → ok (listed kind) ≡ ok l → IsUnique l
listed-IsUnique kind = one-IsUnique (kind == "radarr")

coordinate-IsCoordinated_example :
    All
      (IsCoordinated coordinator prowlarr
        (connection_to prowlarr [])
        stored
        "media"
        (coordinate coordinator "media" prowlarr none).1)
      app_kinds
unfolding string_eq coordinate lookup
coordinate-IsCoordinated_example =
    coordinate-IsCoordinated coordinator prowlarr [] stored "media" none small-IsServer
      stored-IsDistinct (λ kind app s. refl) (λ kind s l e. listed-IsUnique kind l e) refl refl

process_app_config-IsReported_example :
    let result =
      process_app_config coordinator prowlarr (connection_to prowlarr []) "radarr" radarr none in
    IsReported coordinator prowlarr
      (connection_to prowlarr [])
      stored
      (wants prowlarr radarr)
      "radarr"
      radarr
      none
      result
    × (reference_of radarr ≡ none
        → ¬ Claims coordinator prowlarr (connection_to prowlarr []) stored result.1)
    × ((ref : ProwlarrRef)
        → reference_of radarr ≡ some ref
        → ref.name ≢ prowlarr.name
        → result ≡ (none, radarr.registration, none))
process_app_config-IsReported_example =
    process_app_config-IsReported coordinator prowlarr (connection_to prowlarr []) stored
      small-IsServer stored-IsDistinct "radarr" radarr none
