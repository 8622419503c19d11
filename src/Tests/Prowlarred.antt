-- ===== src/Tests/Prowlarred.antt =====
-- The registration of Radarr with a Prowlarr, and its removal.
use mathlib.Core.Option.{some-ne-none}
use nebularr_operator.Common.{
  ℕ, ℤ, suc, arith, ap, sym, ◌↔◌, Result, err, String, string_eq, int_eq, ◌==◌, if◌then◌else◌, Bool,
  true, false, ◌≡◌, refl, pos, none, some, List, [], ◌∷◌, ◌++◌, length, ok, All,
}
use nebularr_operator.Prowlarr.{
  AppRegistration, ProwlarrConnection, ApplicationResource, ProwlarrApi, application_path,
  is_positive, register_app, unregister_app,
}
use nebularr_operator.Prowlarr.Named.{replace, without}
use nebularr_operator.Prowlarr.Server.{IsServer, IsDistinct, IsRegistered, IsAbsent}
use nebularr_operator.Prowlarr.Laws.{register-IsRegistered, unregister-IsAbsent}

abbrev prowlarr : ProwlarrConnection
prowlarr = record { url = "http://prowlarr:9696"; api_key = "key" }

abbrev radarr : AppRegistration
radarr = record {
  name = "Radarr";
  type = "radarr";
  url = "http://radarr:7878";
  api_key = "secret";
  prowlarr_url = "";
  sync_level = "";
  sync_categories = [];
  tags = [];
}

abbrev stored : ℕ → String → ApplicationResource
stored n name = record {
  id = pos (suc n);
  name = name;
  implementation = "Radarr";
  config_contract = "RadarrSettings";
  sync_level = "addOnly";
  tags = [];
  fields = [];
}

pub answer-inj : {k l : List ApplicationResource} → ok l ≡ ok k → l ≡ k
answer-inj {k} e =
    ap (λ (r : Result (List ApplicationResource)). (elim r [ ok x ↦ x | err m ↦ k ])) e

iff_of_tests : (i j : ℤ) (m n : String) → (i == j) ≡ (m == n) → (i ≡ j) ↔ (m ≡ n)
iff_of_tests i j m n e = ground (arith, e)

abbrev pub refused : String
refused = "unexpected status 405"

-- A Prowlarr that keeps the applications that it is given, and deletes none.
abbrev keeping : ProwlarrApi (List ApplicationResource)
keeping = record {
  get = λ conn path s. (ok s, s);
  post = λ conn path a s. (none, s ++ record a { id = pos (suc (length s)) } ∷ []);
  put = λ conn path a s. (none, replace a s);
  delete = λ conn path s. (some refused, s);
}

nothing_deleted :
    (s l : List ApplicationResource)
    → All (λ (a : ApplicationResource). some refused ≡ none → s ≡ without a.id s) l
nothing_deleted s [] = tt
nothing_deleted s (a ∷ l) = ((λ e. absurd (some-ne-none refused e)), nothing_deleted s l)

keeping-IsServer : IsServer keeping prowlarr (λ s. s)
keeping-IsServer = record {
  answers = λ s l e. answer-inj (sym e);
  reads = λ s. refl;
  creates = λ a s e. (length s, refl);
  updates = λ a s e. refl;
  removes = λ s. nothing_deleted s s;
}

abbrev two_applications : List ApplicationResource
two_applications = stored 4 "Radarr" ∷ stored 6 "Sonarr" ∷ []

two_applications-IsDistinct : IsDistinct two_applications
unfolding is_positive int_eq string_eq
two_applications-IsDistinct = record {
  positive = (refl, (refl, tt));
  same = (
    (iff_of_tests _ _ _ _ refl, (iff_of_tests _ _ _ _ refl, tt)),
    ((iff_of_tests _ _ _ _ refl, (iff_of_tests _ _ _ _ refl, tt)), tt),
  );
}

register-IsRegistered_example :
    IsRegistered prowlarr
      (λ (s : List ApplicationResource). s)
      radarr
      two_applications
      (register_app keeping prowlarr radarr two_applications).1
unfolding register_app string_eq
register-IsRegistered_example =
    register-IsRegistered keeping prowlarr (λ s. s) keeping-IsServer radarr two_applications
      two_applications-IsDistinct refl

-- A Prowlarr with two applications, which deletes the one of id 5.
abbrev left : Bool → List ApplicationResource
left removed = if removed then stored 6 "Sonarr" ∷ [] else two_applications

abbrev deleting : ProwlarrApi Bool
deleting = record {
  get = λ conn path s. (ok (left s), s);
  post = λ conn path a s. (some refused, s);
  put = λ conn path a s. (some refused, s);
  delete = λ conn path s.
      if path == "/api/v1/applications/5"
      then (if s then (some "unexpected status 404", s) else (none, true))
      else (some refused, s);
}

deleting-removes :
    (s : Bool)
    → All
        (λ (a : ApplicationResource).
          (deleting.delete prowlarr (application_path a.id) s).0 ≡ none
          → left (deleting.delete prowlarr (application_path a.id) s).1 ≡ without a.id (left s))
        (left s)
unfolding string_eq without int_eq application_path
deleting-removes true = ((λ e. absurd (some-ne-none refused e)), tt)
deleting-removes false = ((λ e. refl), ((λ e. absurd (some-ne-none refused e)), tt))

deleting-IsServer : IsServer deleting prowlarr left
deleting-IsServer = record {
  answers = λ s l e. answer-inj (sym e);
  reads = λ s. refl;
  creates = λ a s e. absurd (some-ne-none refused e);
  updates = λ a s e. absurd (some-ne-none refused e);
  removes = deleting-removes;
}

unregister-IsAbsent_example :
    IsAbsent left "Radarr" false (unregister_app deleting prowlarr "Radarr" false).1
unfolding unregister_app string_eq int_eq
unregister-IsAbsent_example =
    unregister-IsAbsent deleting prowlarr left deleting-IsServer "Radarr" false
      two_applications-IsDistinct refl
