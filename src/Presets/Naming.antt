-- ===== src/Presets/Naming.antt =====
-- internal/presets/naming.go: the built-in naming presets.
use nebularr_operator.Common.{
  String, Bool, true, ◌==◌, ◌||◌, string_eq, if◌then◌else◌, ℤ, pos, Option, List, [], ◌∷◌, map,
}
use nebularr_operator.Common.Dict.{Dict, lookup}

pub record NamingPreset : Type 0 where
  pub name : String
  pub description : String

pub record RadarrNamingExpansion : Type 0 where
  pub rename_movies : Bool
  pub replace_illegal_characters : Bool
  pub colon_replacement : ℤ
  pub standard_movie_format : String
  pub movie_folder_format : String

pub record SonarrNamingExpansion : Type 0 where
  pub rename_episodes : Bool
  pub replace_illegal_characters : Bool
  pub colon_replacement : ℤ
  pub standard_episode_format : String
  pub daily_episode_format : String
  pub anime_episode_format : String
  pub series_folder_format : String
  pub season_folder_format : String
  pub specials_folder_format : String
  pub multi_episode_style : ℤ

pub record LidarrNamingExpansion : Type 0 where
  pub rename_tracks : Bool
  pub replace_illegal_characters : Bool
  pub colon_replacement : ℤ
  pub standard_track_format : String
  pub multi_disc_track_format : String
  pub artist_folder_format : String
  pub album_folder_format : String

abbrev naming_preset : String → String → NamingPreset
naming_preset name description = record { name = name; description = description }

abbrev pub naming_presets : Dict String NamingPreset
naming_presets =
    ("plex-friendly", naming_preset "plex-friendly" "Optimized for Plex metadata matching")
    ∷ ("jellyfin-friendly", naming_preset "jellyfin-friendly" "Optimized for Jellyfin")
    ∷ ("kodi-friendly", naming_preset "kodi-friendly" "Optimized for Kodi")
    ∷ ("detailed", naming_preset "detailed" "Maximum info in filename")
    ∷ ("minimal", naming_preset "minimal" "Clean, simple names")
    ∷ ("scene", naming_preset "scene" "Scene-style naming")
    ∷ []

abbrev pub default_naming_preset : String
default_naming_preset = "plex-friendly"

unfoldable pub get_naming_preset : String → Option NamingPreset
get_naming_preset name = lookup name naming_presets

-- The names in the order of the map's entries (Go leaves the order open).
unfoldable pub list_naming_presets : List String
list_naming_presets = map (λ (p : String × NamingPreset). p.0) naming_presets

abbrev pub radarr_default : RadarrNamingExpansion
radarr_default = record {
  rename_movies = true;
  replace_illegal_characters = true;
  colon_replacement = pos 4;
  standard_movie_format = "{Movie CleanTitle} ({Release Year}) - {Quality Full}";
  movie_folder_format = "{Movie CleanTitle} ({Release Year})";
}

abbrev pub radarr_detailed : RadarrNamingExpansion
radarr_detailed = record {
  rename_movies = true;
  replace_illegal_characters = true;
  colon_replacement = pos 4;
  standard_movie_format =
      "{Movie CleanTitle} ({Release Year}) [{Quality Full}]{[MediaInfo AudioCodec]}{[MediaInfo AudioChannels]}{[MediaInfo VideoCodec]}{[MediaInfo VideoDynamicRange]}{-Release Group}";
  movie_folder_format = "{Movie CleanTitle} ({Release Year})";
}

abbrev pub radarr_minimal : RadarrNamingExpansion
radarr_minimal = record {
  rename_movies = true;
  replace_illegal_characters = true;
  colon_replacement = pos 0;
  standard_movie_format = "{Movie CleanTitle} ({Release Year})";
  movie_folder_format = "{Movie CleanTitle} ({Release Year})";
}

abbrev pub radarr_scene : RadarrNamingExpansion
radarr_scene = record {
  rename_movies = true;
  replace_illegal_characters = true;
  colon_replacement = pos 0;
  standard_movie_format = "{Movie.CleanTitle}.{Release Year}.{Quality.Full}-{Release Group}";
  movie_folder_format = "{Movie CleanTitle} ({Release Year})";
}

-- The default case calls the function again with "plex-friendly".
unfoldable pub get_radarr_naming : String → RadarrNamingExpansion
get_radarr_naming name =
    if name == "plex-friendly" || name == "jellyfin-friendly" || name == "kodi-friendly"
    then radarr_default
    else if name == "detailed"
    then radarr_detailed
    else if name == "minimal"
    then radarr_minimal
    else if name == "scene"
    then radarr_scene
    else radarr_default

abbrev pub sonarr_default : SonarrNamingExpansion
sonarr_default = record {
  rename_episodes = true;
  replace_illegal_characters = true;
  colon_replacement = pos 4;
  standard_episode_format =
      "{Series Title} - S{season:00}E{episode:00} - {Episode Title} {Quality Full}";
  daily_episode_format = "{Series Title} - {Air-Date} - {Episode Title} {Quality Full}";
  anime_episode_format =
      "{Series Title} - S{season:00}E{episode:00} - {Episode Title} {Quality Full}";
  series_folder_format = "{Series Title}";
  season_folder_format = "Season {season:00}";
  specials_folder_format = "Specials";
  multi_episode_style = pos 5;
}

abbrev pub sonarr_detailed : SonarrNamingExpansion
sonarr_detailed = record {
  rename_episodes = true;
  replace_illegal_characters = true;
  colon_replacement = pos 4;
  standard_episode_format =
      "{Series Title} - S{season:00}E{episode:00} - {Episode Title} [{Quality Full}]{[MediaInfo AudioCodec]}{[MediaInfo VideoCodec]}{-Release Group}";
  daily_episode_format =
      "{Series Title} - {Air-Date} - {Episode Title} [{Quality Full}]{-Release Group}";
  anime_episode_format =
      "{Series Title} - S{season:00}E{episode:00} - {absolute:000} - {Episode Title} [{Quality Full}]{-Release Group}";
  series_folder_format = "{Series Title}";
  season_folder_format = "Season {season:00}";
  specials_folder_format = "Specials";
  multi_episode_style = pos 5;
}

abbrev pub sonarr_minimal : SonarrNamingExpansion
sonarr_minimal = record {
  rename_episodes = true;
  replace_illegal_characters = true;
  colon_replacement = pos 0;
  standard_episode_format = "{Series Title} - S{season:00}E{episode:00} - {Episode Title}";
  daily_episode_format = "{Series Title} - {Air-Date} - {Episode Title}";
  anime_episode_format = "{Series Title} - S{season:00}E{episode:00} - {Episode Title}";
  series_folder_format = "{Series Title}";
  season_folder_format = "Season {season:00}";
  specials_folder_format = "Specials";
  multi_episode_style = pos 0;
}

abbrev pub sonarr_scene : SonarrNamingExpansion
sonarr_scene = record {
  rename_episodes = true;
  replace_illegal_characters = true;
  colon_replacement = pos 0;
  standard_episode_format =
      "{Series.Title}.S{season:00}E{episode:00}.{Episode.Title}.{Quality.Full}-{Release Group}";
  daily_episode_format = "{Series.Title}.{Air.Date}.{Episode.Title}.{Quality.Full}-{Release Group}";
  anime_episode_format =
      "{Series.Title}.S{season:00}E{episode:00}.{Episode.Title}.{Quality.Full}-{Release Group}";
  series_folder_format = "{Series Title}";
  season_folder_format = "Season {season:00}";
  specials_folder_format = "Specials";
  multi_episode_style = pos 3;
}

-- The default case calls the function again with "plex-friendly".
unfoldable pub get_sonarr_naming : String → SonarrNamingExpansion
get_sonarr_naming name =
    if name == "plex-friendly" || name == "jellyfin-friendly" || name == "kodi-friendly"
    then sonarr_default
    else if name == "detailed"
    then sonarr_detailed
    else if name == "minimal"
    then sonarr_minimal
    else if name == "scene"
    then sonarr_scene
    else sonarr_default

abbrev pub lidarr_default : LidarrNamingExpansion
lidarr_default = record {
  rename_tracks = true;
  replace_illegal_characters = true;
  colon_replacement = pos 4;
  standard_track_format = "{Album Artist} - {Album Title} - {track:00} - {Track Title}";
  multi_disc_track_format = "{Album Artist} - {Album Title} - {medium:0}{track:00} - {Track Title}";
  artist_folder_format = "{Artist Name}";
  album_folder_format = "{Album Title} ({Release Year})";
}

abbrev pub lidarr_detailed : LidarrNamingExpansion
lidarr_detailed = record {
  rename_tracks = true;
  replace_illegal_characters = true;
  colon_replacement = pos 4;
  standard_track_format =
      "{Album Artist} - {Album Title} - {track:00} - {Track Title} [{Quality Full}]";
  multi_disc_track_format =
      "{Album Artist} - {Album Title} - {medium:0}{track:00} - {Track Title} [{Quality Full}]";
  artist_folder_format = "{Artist Name}";
  album_folder_format = "{Album Title} ({Release Year}) [{Quality Full}]";
}

abbrev pub lidarr_minimal : LidarrNamingExpansion
lidarr_minimal = record {
  rename_tracks = true;
  replace_illegal_characters = true;
  colon_replacement = pos 0;
  standard_track_format = "{track:00} - {Track Title}";
  multi_disc_track_format = "{medium:0}{track:00} - {Track Title}";
  artist_folder_format = "{Artist Name}";
  album_folder_format = "{Album Title}";
}

-- The default case calls the function again with "plex-friendly".
unfoldable pub get_lidarr_naming : String → LidarrNamingExpansion
get_lidarr_naming name =
    if name == "plex-friendly" || name == "jellyfin-friendly" || name == "kodi-friendly"
    then lidarr_default
    else if name == "detailed"
    then lidarr_detailed
    else if name == "minimal"
    then lidarr_minimal
    else lidarr_default
