-- ===== src/Tests/Logs.antt =====
-- Runs of the loggers (logger.go, utils.go) and of the log routes of api.go.
use wmq.Common.{ℕ, suc, ◌≡◌, refl, true, false, none, [], ◌∷◌, text, ◌==◌}
use wmq.Common.Dict.{Dict, lookup}
use wmq.Api.{Request, check_request, peek}
use wmq.Api.Logs.{
  FilePath, LogFiles, sends_file, log_directory, api_log_file, join, clean, abs, walk, has_slash,
}
use wmq.Api.Logs.Confined.{StandsFor, api_log_file-StandsFor}
use wmq.Start.Logs.{Levels, info_level, warn_level, error_level, fatal_level, ◌∪◌}

abbrev default_names : Dict Levels
default_names =
    (text "info", info_level) ∷ (text "error", warn_level ∪ error_level ∪ fatal_level) ∷ []

abbrev pub logs : LogFiles ℕ
logs = record {
  api_token = text "secret";
  log_dir = text "log";
  working = record { is_abs = true; names = text "srv" ∷ text "wmq" ∷ [] };
  glob = λ pattern w. text "/srv/wmq/log/info.log" ∷ [];
  is_not_exist = λ file w. false;
  run = λ command w. ((text "out", none), suc w);
}

abbrev pub file_request : Request
file_request = record {
  args = (text "api-token", text "secret") ∷ (text "file", text "info.log") ∷ [];
}

abbrev info_file : FilePath
info_file = record {
  is_abs = true;
  names = text "srv" ∷ text "wmq" ∷ text "log" ∷ text "info.log" ∷ [];
}

sent : api_log_file logs file_request 0 ≡ sends_file (text "info.log") info_file
unfolding api_log_file check_request lookup ◌==◌ log_directory join clean abs walk has_slash
sent = refl

api_log_file-StandsFor_example :
    (check_request logs.api_token file_request ≡ true)
    × (logs.is_not_exist info_file 0 ≡ false)
    × StandsFor (log_directory logs) (peek file_request "file") info_file
api_log_file-StandsFor_example =
    api_log_file-StandsFor logs file_request 0 (text "info.log") info_file sent
