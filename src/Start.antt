-- ===== src/Start.antt =====
-- wmq.go: how the program starts, from the configuration (Start/Config) to the services. A `Fatal` of the
-- logger ends the program and is an error here.
pub mod Config
pub mod Logs
pub mod Reaches
pub mod Decimal
pub mod Settings
use wmq.Common.{
  ℕ, zero, suc, ◌+◌, ◌/◌, ◌%◌, Bool, true, false, not, Option, none, some, List, [], ◌∷◌, ◌++◌,
  Text, text, ◌==◌, ltb, if◌then◌else◌, Result, ok, err,
}
use wmq.Registry.{Message, Number, pos, negsuc}
use wmq.Registry.Backend.{Backend, State, M, pure, ◌>>=◌, ◌>>◌, call, modify}
use wmq.Registry.Operations.{init_messages}
use wmq.Storage.{Gabs, FileSystem, load_messages_from_file}
use wmq.Start.Config.{Viper}

-- The parts of the start that are in the other files, and the libraries: among them `initPool` with the
-- address, and `serveAPI` and `servePublish`, which run as goroutines from then on.
pub record Parts (V W : Type 0) : Type 0 where
  pub viper : Viper V
  pub gabs : Gabs
  pub files : FileSystem W
  pub backend : Backend W
  pub init_pool : Text → W → Option Text × W
  pub init_channel_pool : W → Option Text × W
  pub init_consumer_manager : W → W
  pub serve_api : Text → Text → W → W
  pub serve_publish : Text → W → W

-- The digits of a number in front of a text; the fuel is the number itself, which every round makes
-- smaller.
unfoldable pub format_digits : ℕ → ℕ → Text → Text
format_digits zero n s = (b'0' + n % 10) ∷ s
format_digits (suc fuel) n s = elim (ltb n 10) [
  | true ↦ (b'0' + n % 10) ∷ s
  | false ↦ format_digits fuel (n / 10) ((b'0' + n % 10) ∷ s)
]

-- `%d`
unfoldable pub format_int : Number → Text
unfolding format_digits
format_int (pos n) = format_digits n n []
format_int (negsuc n) = b'-' ∷ format_digits (suc n) (suc n) []

abbrev pub vhost_path : Text → Text
vhost_path vhost = if not (vhost == text "/") then text "/" ++ vhost else vhost

-- `fmt.Sprintf("amqp://%s:%s@%s:%d%s", …)`
abbrev pub amqp_uri : Text → Text → Text → Text → Text → Text
amqp_uri username password host port path =
    text "amqp://"
    ++ username
    ++ text ":"
    ++ password
    ++ text "@"
    ++ host
    ++ text ":"
    ++ port
    ++ path

abbrev with_prefix : {A : Type 0} → Text → Result A → Result A
with_prefix prefix (ok a) = ok a
with_prefix prefix (err e) = err (prefix ++ e)

module _ {W : Type 0} where
  -- `if err != nil { ctx.Fatalf(prefix …, err) }`
  abbrev pub or_fatal : {A : Type 0} → Text → M W A → M W A
  or_fatal prefix m s = let (r, s') = m s in (with_prefix prefix r, s')

  abbrev pub change : (W → W) → M W (Unit {0})
  change f s = (ok tt, record s { world = f s.world })

module _ {V W : Type 0} (parts : Parts V W) where
  unfoldable pub uri : V → Text
  unfolding format_int
  uri cfg =
      amqp_uri (parts.viper.get_string (text "rabbitmq.username") cfg)
        (parts.viper.get_string (text "rabbitmq.password") cfg)
        (parts.viper.get_string (text "rabbitmq.host") cfg)
        (format_int (parts.viper.get_int (text "rabbitmq.port") cfg))
        (vhost_path (parts.viper.get_string (text "rabbitmq.vhost") cfg))

  abbrev pub data_file : V → Text
  data_file cfg = parts.viper.get_string (text "consume.DataFile") cfg

  -- `init`, from the data file on.
  unfoldable pub init : V → M W (Unit {0})
  unfolding uri load_messages_from_file
  init cfg = do
    loaded ←
        or_fatal (text "load message data form file fail [" ++ data_file cfg ++ text "],")
          (load_messages_from_file parts.gabs parts.files (data_file cfg))
    modify (λ ms. loaded)
    or_fatal (text "init connection to rabbitmq fail : ") (call (parts.init_pool (uri cfg)))
    or_fatal (text "init Channel Pool fail : ") (call parts.init_channel_pool)

  abbrev pub maybe_serve_api : V → M W (Unit {0})
  maybe_serve_api cfg =
      if not (parts.viper.get_bool (text "api-disable") cfg)
      then change (
          parts.serve_api (parts.viper.get_string (text "listen.api") cfg)
            (parts.viper.get_string (text "api.token") cfg))
      else pure tt

  -- `main`. `Fatalln` does not fill in its `%s`.
  unfoldable pub main : V → M W (Unit {0})
  unfolding init_messages
  main cfg = do
    change parts.init_consumer_manager
    or_fatal (text "%s ") (init_messages parts.backend)
    maybe_serve_api cfg
    change (parts.serve_publish (parts.viper.get_string (text "listen.publish") cfg))

  unfoldable pub start : V → M W (Unit {0})
  unfolding init main
  start cfg = init cfg >> main cfg
