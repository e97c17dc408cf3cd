-- ===== src/Start/Logs.antt =====
-- logger.go, with `inArray` of utils.go: which levels go to the console and to which files. A set of levels,
-- a mask of bits in the program, is its test here; the logger and its default are parameters.
pub mod Levels
pub mod Names
use wmq.Common.{
  ℕ, zero, suc, ◌+◌, ◌<◌, ◌≡◌, refl, sym, ap, ◌∙◌, ◌≢◌, ◌⊎◌, inl, inr, Bool, true, false, ◌||◌,
  Option, none, some, List, [], ◌∷◌, Text, text, ◌==◌, ==_iff, ==_refl, ==_of_ne, leb,
  if◌then◌else◌, get_elem?, arith, Bool-cases,
}
use wmq.Common.Dict.{Dict, lookup, insert, lookup-insert}
use wmq.Registry.{Number, pos, negsuc}
use wmq.Start.Config.{Viper}

pub data Level : Type 0 where
  debug info warn error fatal : Level

abbrev pub Levels : Type 0
Levels = Level → Bool

abbrev pub severity : Level → ℕ
severity debug = 0
severity info = 1
severity warn = 2
severity error = 3
severity fatal = 4

abbrev pub level_name : Level → Text
level_name debug = text "debug"
level_name info = text "info"
level_name warn = text "warn"
level_name error = text "error"
level_name fatal = text "fatal"

-- The constants of the logger, and `|`.
abbrev pub all_levels : Levels
all_levels l = true

abbrev pub no_levels : Levels
no_levels l = false

abbrev pub info_level : Levels
info_level info = true
info_level l = false

abbrev pub warn_level : Levels
warn_level warn = true
warn_level l = false

abbrev pub error_level : Levels
error_level error = true
error_level l = false

abbrev pub fatal_level : Levels
fatal_level fatal = true
fatal_level l = false

infixr 30 ◌∪◌
abbrev pub ◌∪◌ : Levels → Levels → Levels
(a ∪ b) l = a l || b l

-- The switch of `initLog`.
unfoldable pub console_levels : Text → Levels
console_levels name =
    if name == text "debug"
    then all_levels
    else if name == text "info"
    then info_level ∪ warn_level ∪ error_level ∪ fatal_level
    else if name == text "warn"
    then warn_level ∪ error_level ∪ fatal_level
    else if name == text "error"
    then error_level ∪ fatal_level
    else if name == text "fatal"
    then fatal_level
    else no_levels

-- `inArray` on texts, from the index `i` on.
unfoldable pub in_array_from : ℕ → Text → List Text → Bool × Number
in_array_from i val [] = (false, negsuc 0)
in_array_from i val (x ∷ xs) =
    let rest = in_array_from (i + 1) val xs in if val == x then (true, pos i) else rest

unfoldable pub in_array : Text → List Text → Bool × Number
unfolding in_array_from
in_array = in_array_from 0

-- `files.FileConfig`: of its fields those that the program sets.
pub record FileConfig : Type 0 where
  pub log_path : Text
  pub max_bytes : Number
  pub max_count : Number
  pub file_name_set : Dict Levels

-- What the loggers write to: the console's levels, the files, and the files of the access log.
pub record Loggers : Type 0 where
  pub console : Levels
  pub files : FileConfig
  pub access : Option FileConfig

abbrev pub put_if : Bool → Text → Levels → Dict Levels → Dict Levels
put_if set name levels d = if set then insert name levels d else d

-- `cfgF.FileNameSet`, from the default and the configured names.
unfoldable pub file_names : List Text → Dict Levels → Dict Levels
unfolding in_array
file_names levels names =
    put_if (in_array (text "error") levels).0 (text "error")
      (warn_level ∪ error_level ∪ fatal_level)
      (put_if (in_array (text "info") levels).0 (text "info") info_level
        (put_if (in_array (text "debug") levels).0 (text "debug") all_levels names))

-- `initLog`. `default` is the file configuration that `GetDefaultFileConfig` gives.
pub init_log : {V : Type 0} → Viper V → FileConfig → V → Loggers
unfolding console_levels file_names
init_log viper default cfg =
    let based : FileConfig = record default {
      log_path = viper.get_string (text "log.dir") cfg;
      max_bytes = viper.get_int (text "log.FileMaxSize") cfg;
      max_count = viper.get_int (text "log.MaxCount") cfg;
    } in
    record {
      console = console_levels (viper.get_string (text "log.console-level") cfg);
      files = record based {
        file_name_set =
            file_names (viper.get_string_slice (text "log.level") cfg) default.file_name_set;
      };
      access =
          if viper.get_bool (text "log.access") cfg
          then some (record based { file_name_set = (text "access", info_level) ∷ [] })
          else none;
    }
