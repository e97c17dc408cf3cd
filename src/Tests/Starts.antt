-- ===== src/Tests/Starts.antt =====
-- Runs of the start of the program (wmq.go, config.go, logger.go) and of the log routes of api.go.
use wmq.Common.{
  ◌≡◌, refl, ap, Bool, true, false, Option, none, some, List, [], ◌∷◌, Text, text, to_lower, ok,
  ◌==◌, ==_refl, if◌then◌else◌, inr,
}
use wmq.Common.Dict.{Dict, lookup, insert, lookup-insert}
use wmq.Registry.{Message, Number, pos, get_message, get_message_from}
use wmq.Registry.Backend.{Backend, State}
use wmq.Registry.Operations.{add_message, init_messages}
use wmq.Api.{Service, null, in_callback, check_request}
use wmq.Api.Handlers.{message_add, serve, handle, api_message_add, add_unless, message_of}
use wmq.Delivery.Publishing.{visit_headers}
use wmq.Storage.{write_messages_to_file}
use wmq.Storage.Restart.{ReadsBack}
use wmq.Start.{Parts, start, data_file, maybe_serve_api}
use wmq.Start.Config.{
  Setting, string, bool, int, strings, Viper, value_of, bind_flags, before_file, set_ignores,
  init_config, configured,
}
use wmq.Start.Settings.{Unaffected, GivesIgnores, init_config-serves, visit_headers-defaults}
use wmq.Start.Reaches.{PoolsOutcome, StartOutcome, start_lem, start-Unreadable, start-serve}
use wmq.Tests.Registries.{orders, bills}
use wmq.Tests.Apis.{add_request}
use wmq.Tests.Storages.{File, one_file, gabs_of, no_nils, one_file-KeepsFiles}

abbrev Settings : Type 0
Settings = Dict Setting

abbrev as_bool : Option Setting → Bool
as_bool (some (bool b)) = b
as_bool x = false

abbrev as_text : Option Setting → Text
as_text (some (string s)) = s
as_text x = []

abbrev as_int : Option Setting → Number
as_int (some (int n)) = n
as_int x = pos 0

abbrev as_strings : Option Setting → List Text
as_strings (some (strings xs)) = xs
as_strings x = []

-- A configuration in which the last to set a key has it, and no file.
abbrev viper : Viper Settings
viper = record {
  set_default = λ k x cfg. insert (to_lower k) x cfg;
  bind_pflag = λ k f cfg. insert (to_lower k) (value_of f) cfg;
  set = λ k x cfg. insert (to_lower k) x cfg;
  set_config_file = λ file cfg. cfg;
  set_config_name = λ name cfg. cfg;
  add_config_path = λ path cfg. cfg;
  read_in_config = λ cfg. (none, cfg);
  config_file_used = λ cfg. [];
  get_string = λ k cfg. as_text (lookup (to_lower k) cfg);
  get_bool = λ k cfg. as_bool (lookup (to_lower k) cfg);
  get_int = λ k cfg. as_int (lookup (to_lower k) cfg);
  get_string_slice = λ k cfg. as_strings (lookup (to_lower k) cfg);
}

elsewhere :
    (k key : Text) (x : Setting) (cfg : Settings)
    → (to_lower k == to_lower key) ≡ false
    → lookup (to_lower key) (insert (to_lower k) x cfg) ≡ lookup (to_lower key) cfg
elsewhere k key x cfg other = rw (lookup-insert (to_lower k) (to_lower key) x cfg, other)

stored :
    (k : Text) (x : Setting) (cfg : Settings)
    → lookup (to_lower k) (insert (to_lower k) x cfg) ≡ some x
stored k x cfg = rw (lookup-insert (to_lower k) (to_lower k) x cfg, ==_refl (to_lower k))

viper-Unaffected :
    {X : Type 0} (key : Text) (read : Option Setting → X)
    → Unaffected viper key (λ cfg. read (lookup (to_lower key) cfg))
viper-Unaffected key read = record {
  set_default = λ k x cfg other. ap read (elsewhere k key x cfg other);
  bind_pflag = λ k f cfg other. ap read (elsewhere k key (value_of f) cfg other);
  set = λ k x cfg other. ap read (elsewhere k key x cfg other);
  set_config_file = λ file cfg. refl;
  set_config_name = λ name cfg. refl;
  add_config_path = λ path cfg. refl;
  read_in_config = λ cfg. refl;
}

-- A broker that does all it is asked to.
abbrev quiet : Backend File
quiet = record {
  exchange_declare = λ name kind durable w. (none, w);
  queue_declare = λ name durable w. ((record { messages = 0 }, none), w);
  queue_bind_to_exchange = λ queue exchange key w. (none, w);
  delete_queue = λ name w. (none, w);
  delete_exchange = λ name w. (none, w);
  publish_on_channel = λ exchange key body w. (none, w);
  answer = λ action c m w. (text "ok", w);
}

-- `--api-disable`
abbrev disables : Text → Option Setting
disables name = if name == text "api-disable" then some (bool true) else none

abbrev counted : Parts Settings File
counted = record {
  viper = viper;
  gabs = gabs_of [];
  files = one_file;
  backend = quiet;
  init_pool = λ uri w. (none, w);
  init_channel_pool = λ w. (none, w);
  init_consumer_manager = λ w. w;
  serve_api = λ listen token w. some (text "serves");
  serve_publish = λ listen w. w;
}

abbrev fresh : Settings
fresh = set_ignores viper disables (before_file viper disables [])

fresh-configured : init_config viper disables [] ≡ configured [] fresh
unfolding init_config before_file bind_flags lookup insert ◌==◌
fresh-configured = refl

init_config-serves_example :
    maybe_serve_api counted fresh (record { messages = []; world = none })
    ≡ (ok tt, record { messages = []; world = some (text "serves") })
init_config-serves_example =
    init_config-serves counted disables [] [] fresh (viper-Unaffected (text "api-disable") as_bool)
      (unfold lookup in refl) fresh-configured (record { messages = []; world = none })

visit_headers-defaults_example :
    lookup (text "token") (
      visit_headers
        (viper.get_string_slice (text "publish.IgnoreHeaders") fresh)
        ((text "token", text "t") ∷ (text "X", text "1") ∷ [])
        [])
    ≡ none
visit_headers-defaults_example =
    visit_headers-defaults viper disables [] [] fresh
      ((text "token", text "t") ∷ (text "X", text "1") ∷ []) (text "token")
      (viper-Unaffected (text "default.IgnoreHeaders") as_strings) gives fresh-configured refl
      (unfold ◌==◌ in refl)
  where
    gives : GivesIgnores viper
    gives = record {
      get-set = λ xs cfg. ap as_strings (stored (text "publish.IgnoreHeaders") (strings xs) cfg);
      get-set_default =
          λ xs cfg. ap as_strings (stored (text "default.IgnoreHeaders") (strings xs) cfg);
    }

-- The messages after the request.
abbrev three : List Message
three = orders ∷ bills ∷ message_of add_request ∷ []

abbrev with_three : Parts Settings File
with_three = record counted { gabs = gabs_of three }

abbrev file_service : Service File
file_service = record {
  backend = quiet;
  write_messages_to_file =
      write_messages_to_file (gabs_of three) one_file no_nils (data_file with_three fresh);
  new_v4 = λ w. (text "id", w);
  to_float64 = λ x. x;
  api_token = text "secret";
}

abbrev before : State File
before = record { messages = orders ∷ bills ∷ []; world = none }

abbrev after : State File
after = (serve file_service message_add add_request before).1

answered : (serve file_service message_add add_request before).0.body ≡ in_callback [] (ok null)
unfolding serve handle check_request api_message_add add_unless get_message get_message_from lookup
    add_message ◌==◌ write_messages_to_file
answered = refl

read_back : ReadsBack (gabs_of three) one_file (data_file with_three fresh) no_nils after.messages
unfolding serve handle check_request api_message_add add_unless get_message get_message_from lookup
    add_message ◌==◌ write_messages_to_file init_messages
read_back = refl

start-serve_example :
    PoolsOutcome with_three fresh after
      (start with_three fresh (record after { messages = [] })).0
      (start with_three fresh (record after { messages = [] })).1
start-serve_example =
    start-serve with_three fresh file_service no_nils message_add add_request before [] null
      (λ ms w. refl) (one_file-KeepsFiles _ _) read_back refl answered

start_example :
    StartOutcome counted fresh before (start counted fresh before).0 (start counted fresh before).1
start_example = start_lem counted fresh before

-- A library for which no text is JSON, and a file that holds some text.
abbrev reads_nothing : Parts Settings File
reads_nothing = record counted {
  gabs = record { parse_json = λ t. none; string_indent = λ v. text "[]" };
}

abbrev lost : State File
lost = record { messages = orders ∷ []; world = some (text "no JSON") }

start-Unreadable_example :
    PoolsOutcome reads_nothing fresh
      (record lost { messages = [] })
      (start reads_nothing fresh lost).0
      (start reads_nothing fresh lost).1
start-Unreadable_example =
    start-Unreadable reads_nothing fresh lost (refl, inr (text "no JSON", refl, refl))
