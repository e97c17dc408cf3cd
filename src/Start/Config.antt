-- ===== src/Start/Config.antt =====
-- config.go: the flags, their keys in the configuration, and the configuration file. viper is the
-- parameter `Viper`; pflag gives what the command line says of each flag.
use wmq.Common.{
  ◌||◌, ◌&&◌, not, Bool, true, false, Option, none, some, List, [], ◌∷◌, ◌++◌, Text, text, ◌==◌,
  nat_eq, if◌then◌else◌,
}
use wmq.Common.Dict.{Dict, lookup}
use wmq.Registry.{Number, pos}

-- The values of flags and keys.
pub data Setting : Type 0 where
  string : Text → Setting
  bool : Bool → Setting
  int : Number → Setting
  strings : List Text → Setting

-- A flag: its default, and what the command line gives for it.
pub record Flag : Type 0 where
  pub default : Setting
  pub given : Option Setting

-- The calls of viper, on its state `V`. Keys are not sensitive to case.
pub record Viper (V : Type 0) : Type 0 where
  pub set_default : Text → Setting → V → V
  pub bind_pflag : Text → Flag → V → V
  pub set : Text → Setting → V → V
  pub set_config_file : Text → V → V
  pub set_config_name : Text → V → V
  pub add_config_path : Text → V → V
  pub read_in_config : V → Option Text × V
  pub config_file_used : V → Text
  pub get_string : Text → V → Text
  pub get_bool : Text → V → Bool
  pub get_int : Text → V → Number
  pub get_string_slice : Text → V → List Text

-- The calls of `pflag.String` and its like: the name and the default.
abbrev pub flags : Dict Setting
flags =
    (text "listen-api", string (text "0.0.0.0:3302"))
    ∷ (text "listen-publish", string (text "0.0.0.0:3303"))
    ∷ (text "api-token", string (text "guest"))
    ∷ (text "config", string [])
    ∷ (text "api-disable", bool false)
    ∷ (text "level", string (text "debug"))
    ∷ (text "version", bool false)
    ∷ (text "data-example", bool false)
    ∷ (text "ignore-headers", strings [])
    ∷ (text "realip-header", string (text "X-Forwarded-For"))
    ∷ (text "fail-wait", int (pos 50))
    ∷ (text "go-fail-wait", int (pos 3))
    ∷ (text "mq-host", string (text "127.0.0.1"))
    ∷ (text "mq-port", int (pos 5672))
    ∷ (text "mq-username", string (text "guest"))
    ∷ (text "mq-password", string (text "guest"))
    ∷ (text "mq-vhost", string (text "/"))
    ∷ (text "mq-prefix", string (text "wmq."))
    ∷ (text "data-file", string (text "message.json"))
    ∷ (text "log-dir", string (text "log"))
    ∷ (text "log-access", bool true)
    ∷ (text "log-post", bool false)
    ∷ (text "log-max-size", int (pos 102400000))
    ∷ (text "log-max-count", int (pos 3))
    ∷ (text "log-level", strings (text "info" ∷ text "error" ∷ text "debug" ∷ []))
    ∷ []

-- The calls of `BindPFlag`: the key and the flag.
abbrev pub bindings : Dict Text
bindings =
    (text "listen.api", text "listen-api")
    ∷ (text "listen.publish", text "listen-publish")
    ∷ (text "api.token", text "api-token")
    ∷ (text "api.disable", text "api-disable")
    ∷ (text "publish.IgnoreHeaders", text "ignore-headers")
    ∷ (text "publish.RealIpHeader", text "realip-header")
    ∷ (text "consume.FailWait", text "fail-wait")
    ∷ (text "consume.GoFailWait", text "go-fail-wait")
    ∷ (text "consume.DataFile", text "data-file")
    ∷ (text "rabbitmq.host", text "mq-host")
    ∷ (text "rabbitmq.port", text "mq-port")
    ∷ (text "rabbitmq.username", text "mq-username")
    ∷ (text "rabbitmq.password", text "mq-password")
    ∷ (text "rabbitmq.vhost", text "mq-vhost")
    ∷ (text "rabbitmq.prefix", text "mq-prefix")
    ∷ (text "log.dir", text "log-dir")
    ∷ (text "log.level", text "log-level")
    ∷ (text "log.access", text "log-access")
    ∷ (text "log.post", text "log-post")
    ∷ (text "log.console-level", text "level")
    ∷ (text "log.fileMaxSize", text "log-max-size")
    ∷ (text "log.maxCount", text "log-max-count")
    ∷ []

-- The value of `default.IgnoreHeaders`.
abbrev pub default_ignores : List Text
default_ignores =
    text "Token"
    ∷ text "RouteKey"
    ∷ text "Host"
    ∷ text "Expect"
    ∷ text "Accept-Encoding"
    ∷ text "Content-Length"
    ∷ text "Connection"
    ∷ []

abbrev config_paths : List Text
config_paths = text "/etc/wmq/" ∷ text "$HOME/.wmq" ∷ text ".wmq" ∷ text "." ∷ []

abbrev starts_with : Text → Text → Bool
starts_with [] s = true
starts_with (p ∷ ps) [] = false
starts_with (p ∷ ps) (c ∷ s) = nat_eq p c && starts_with ps s

-- `strings.Contains`
abbrev pub has_part : Text → Text → Bool
has_part part [] = starts_with part []
has_part part (c ∷ s) = starts_with part (c ∷ s) || has_part part s

-- How `initConfig` ends: the program ends after it has printed this, or goes on with the
-- configuration.
pub data Configured (V : Type 0) : Type 0 where
  exits : Text → Configured V
  configured : (printed : Text) → V → Configured V

abbrev pub to_text : Setting → Text
to_text (string s) = s
to_text x = []

abbrev pub to_bool : Setting → Bool
to_bool (bool b) = b
to_bool x = false

-- `pflag.Lookup`, of a flag that was declared.
abbrev pub flag : (Text → Option Setting) → Text → Flag
flag given name = record {
  default = elim (lookup name flags) [ some x ↦ x | none ↦ string [] ];
  given = given name;
}

abbrev pub value_of : Flag → Setting
value_of f = elim f.given [ some x ↦ x | none ↦ f.default ]

-- What `printExample` prints, without the last line end.
abbrev example : Text
example =
    text "[{\n"
    ++ text "    \"Comment\": \"\",\n"
    ++ text "    \"Consumers\": [{\n"
    ++ text "            \"Comment\": \"\",\n"
    ++ text "            \"ID\": \"111\",\n"
    ++ text "            \"Code\": 200,\n"
    ++ text "            \"CheckCode\": true,\n"
    ++ text "            \"RouteKey\": \"#\",\n"
    ++ text "            \"Timeout\": 5000,\n"
    ++ text "            \"URL\": \"http://test.com/wmq.php\"\n"
    ++ text "        }\n"
    ++ text "    ],\n"
    ++ text "    \"Durable\": false,\n"
    ++ text "    \"IsNeedToken\": true,\n"
    ++ text "    \"Mode\": \"topic\",\n"
    ++ text "    \"Name\": \"test\",\n"
    ++ text "    \"Token\": \"JQJsUOqYzYZZgn8gUvs7sIinrJ0tDD8J\"\n"
    ++ text "}]"

module _ {V : Type 0} (viper : Viper V) (given : Text → Option Setting) where
  unfoldable pub bind_flags : Dict Text → V → V
  bind_flags [] cfg = cfg
  bind_flags ((key, name) ∷ bs) cfg = bind_flags bs (viper.bind_pflag key (flag given name) cfg)

  abbrev add_paths : List Text → V → V
  add_paths [] cfg = cfg
  add_paths (p ∷ ps) cfg = add_paths ps (viper.add_config_path p cfg)

  abbrev pub find_config : V → V
  find_config cfg =
      let file = to_text (value_of (flag given (text "config"))) in
      if not (file == [])
      then viper.set_config_file file cfg
      else add_paths config_paths (viper.set_config_name (text "config") cfg)

  -- What is printed of the configuration file.
  abbrev file_report : Text → Text
  file_report file = if not (file == []) then text "use config file : " ++ file ++ text "\n" else []

  abbrev config_report : Option Text → Text → Text
  config_report none file = file_report file
  config_report (some e) file = if not (has_part (text "Not") e) then e else file_report file

  -- `append(cfg.GetStringSlice(…), …)` as the ignored headers.
  abbrev pub set_ignores : V → V
  set_ignores cfg =
      viper.set (text "publish.IgnoreHeaders")
        (strings (
          viper.get_string_slice (text "default.IgnoreHeaders") cfg
          ++ viper.get_string_slice (text "publish.IgnoreHeaders") cfg))
        cfg

  -- The configuration before the file is read, and with it.
  unfoldable pub before_file : V → V
  unfolding bind_flags
  before_file cfg = find_config (
      viper.set_default (text "default.IgnoreHeaders") (strings default_ignores)
        (bind_flags bindings (viper.set_default (text "wmq.version") (string (text "1.5")) cfg)))

  unfoldable pub init_config : V → Configured V
  unfolding before_file
  init_config cfg =
      if to_bool (value_of (flag given (text "version")))
      then exits (
          text "WMQ v"
          ++ viper.get_string (text "wmq.version")
              (viper.set_default (text "wmq.version") (string (text "1.5")) cfg)
          ++ text " - https://github.com/snail007/wmq\n")
      else if to_bool (value_of (flag given (text "data-example")))
      then exits (example ++ text "\n")
      else let (e, read) = viper.read_in_config (before_file cfg) in
        configured
          (to_text (value_of (flag given (text "config")))
            ++ config_report e (viper.config_file_used read))
          (set_ignores read)
