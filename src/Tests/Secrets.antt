-- ===== src/Tests/Secrets.antt =====
-- The resolution of secrets.
use mathlib.Core.Bool.{false≢true}
use text.Mathlib.TextEquality.{eq_iff}
use nebularr_operator.Common.{String, string_eq, pos, none, some, [], ◌∷◌, Result, ok}
use nebularr_operator.Common.Dict.{Dict}
use nebularr_operator.Api.{DownloadClientSpec, DirectIndexer}
use nebularr_operator.Controller.Secrets.Requests.{IsUnambiguous}

-- A cluster in which every secret has a name and a password.
abbrev pub secrets : String → String → Result (Dict String String)
secrets namespace name = ok (("username", "poiley") ∷ ("password", "secret") ∷ [])

abbrev pub qbittorrent : DownloadClientSpec
qbittorrent = record {
  name = "main";
  url = "http://qbittorrent:8080";
  type = "qbittorrent";
  credentials_secret_ref = some (record { name = "qbt"; username_key = ""; password_key = "" });
  category = "";
  priority = pos 0;
  enabled = none;
  remove_completed_downloads = none;
  remove_failed_downloads = none;
}

pub qbittorrent-IsUnambiguous : IsUnambiguous (("qbt", "username") ∷ ("qbt", "password") ∷ [])
qbittorrent-IsUnambiguous =
    ((λ e. absurd (false≢true ((eq_iff "qbt/password" "qbt/username").1 e)), tt), (tt, tt))

abbrev pub nzbgeek : DirectIndexer
nzbgeek = record {
  name = "geek";
  url = "https://api.nzbgeek.info";
  type = "newznab";
  api_key_secret_ref = some (record { name = "geek"; key = "" });
  categories = [];
  priority = pos 0;
  enabled = none;
}
