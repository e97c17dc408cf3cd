-- ===== src/Start/Settings.antt =====
-- What the configuration of config.go comes to, for wmq.go and for `apiPublish` of api.go, over the
-- documented behaviour of viper.
use wmq.Common.{
  ◌≡◌, refl, sym, ap, ◌∙◌, Bool, true, false, not, Option, none, List, [], ◌∷◌, ◌++◌, Text, text,
  to_lower, ◌==◌, ◌&&◌, arith, Bool-cases, inl, inr,
}
use wmq.Common.Dict.{Dict, lookup}
use wmq.Registry.Backend.{State}
use wmq.Delivery.Publishing.{trim_space, is_ignored, visit_headers}
use wmq.Delivery.Headers.{visit_headers-lookup, is_ignored-append}
use wmq.Start.{Parts, change, maybe_serve_api}
use wmq.Start.Config.{
  Setting, strings, Flag, Viper, bindings, default_ignores, exits, configured, flag, value_of,
  to_text, to_bool, bind_flags, find_config, set_ignores, before_file, init_config,
}

abbrev same_key : Text → Text → Bool
same_key a b = to_lower a == to_lower b

-- What a key gives is not changed by what is done to another key, nor by the configuration file.
pub record Unaffected {V X : Type 0} (viper : Viper V) (key : Text) (get : V → X) : Type 0 where
  pub set_default :
      (k : Text) (x : Setting) (cfg : V)
      → same_key k key ≡ false
      → get (viper.set_default k x cfg) ≡ get cfg
  pub bind_pflag :
      (k : Text) (f : Flag) (cfg : V)
      → same_key k key ≡ false
      → get (viper.bind_pflag k f cfg) ≡ get cfg
  pub set :
      (k : Text) (x : Setting) (cfg : V)
      → same_key k key ≡ false
      → get (viper.set k x cfg) ≡ get cfg
  pub set_config_file : (file : Text) (cfg : V) → get (viper.set_config_file file cfg) ≡ get cfg
  pub set_config_name : (name : Text) (cfg : V) → get (viper.set_config_name name cfg) ≡ get cfg
  pub add_config_path : (path : Text) (cfg : V) → get (viper.add_config_path path cfg) ≡ get cfg
  pub read_in_config : (cfg : V) → get (viper.read_in_config cfg).1 ≡ get cfg

abbrev avoids : Text → Dict Text → Bool
avoids key [] = true
avoids key ((k, name) ∷ bs) = not (same_key k key) && avoids key bs

configured-injective : {V : Type 0} {p q : Text} {x y : V} → configured p x ≡ configured q y → x ≡ y
configured-injective e = cc

exits-configured : {V : Type 0} {p q : Text} {x : V} → exits p ≡ configured q x → ⊥
exits-configured e = cc

-- When the program goes on, this is the configuration.
init_config-read :
    {V : Type 0} (viper : Viper V) (given : Text → Option Setting) {printed : Text} (cfg : V)
    {cfg' : V}
    → init_config viper given cfg ≡ configured printed cfg'
    → set_ignores viper given (viper.read_in_config (before_file viper given cfg)).1 ≡ cfg'
unfolding init_config
init_config-read viper given cfg started =
    elim (Bool-cases (to_bool (value_of (flag given (text "version"))))) [
      | inl set ↦ absurd (exits-configured (rw set at started))
      | inr unset ↦ elim (Bool-cases (to_bool (value_of (flag given (text "data-example"))))) [
        | inl set ↦ absurd (exits-configured (rw (unset, set) at started))
        | inr also ↦ configured-injective (rw (unset, also) at started)
      ]
    ]

both : (x y : Bool) → (not x && y) ≡ true → (x ≡ false) × (y ≡ true)
both x y h = ground arith

module _ {V X : Type 0} (viper : Viper V) (given : Text → Option Setting) (key : Text) (get : V → X)
    (same : Unaffected viper key get) where
  bind_flags-same :
      (bs : Dict Text) (cfg : V)
      → avoids key bs ≡ true
      → get (bind_flags viper given bs cfg) ≡ get cfg
  unfolding bind_flags
  bind_flags-same [] cfg h = refl
  bind_flags-same ((k, name) ∷ bs) cfg h =
      let (other, rest) = both (same_key k key) (avoids key bs) h in
      bind_flags-same bs _ rest ∙ same.bind_pflag k (flag given name) cfg other

  find_config-same : (cfg : V) → get (find_config viper given cfg) ≡ get cfg
  find_config-same cfg =
      elim (Bool-cases (not (to_text (value_of (flag given (text "config"))) == []))) [
        | inl file ↦ rw file (same.set_config_file _ cfg)
        | inr missing ↦ rw missing (
            same.add_config_path _ _
            ∙ same.add_config_path _ _
            ∙ same.add_config_path _ _
            ∙ same.add_config_path _ _
            ∙ same.set_config_name _ _)
      ]

  -- `initConfig` does not change what the key gives.
  init_config-same :
      {printed : Text} (cfg : V) {cfg' : V}
      → avoids key bindings ≡ true
      → same_key (text "wmq.version") key ≡ false
      → same_key (text "default.IgnoreHeaders") key ≡ false
      → same_key (text "publish.IgnoreHeaders") key ≡ false
      → init_config viper given cfg ≡ configured printed cfg'
      → get cfg' ≡ get cfg
  unfolding before_file
  init_config-same cfg all version defaults ignores started =
      sym (ap get (init_config-read viper given cfg started))
      ∙ same.set (text "publish.IgnoreHeaders") _ _ ignores
      ∙ same.read_in_config _
      ∙ find_config-same _
      ∙ same.set_default (text "default.IgnoreHeaders") _ _ defaults
      ∙ bind_flags-same bindings _ all
      ∙ same.set_default (text "wmq.version") _ _ version

-- The API service is started whatever the command line says, so also with `--api-disable`: `main` asks for
-- the key `api-disable`, which `initConfig` does not set. No configuration file may set it, and viper must
-- give false for a key that is not set.
pub init_config-serves :
    {V W : Type 0} (parts : Parts V W) (given : Text → Option Setting) (printed : Text)
    (cfg cfg' : V)
    → Unaffected parts.viper (text "api-disable") (parts.viper.get_bool (text "api-disable"))
    → parts.viper.get_bool (text "api-disable") cfg ≡ false
    → init_config parts.viper given cfg ≡ configured printed cfg'
    → (s : State W)
    → maybe_serve_api parts cfg' s
      ≡ change
          (parts.serve_api
            (parts.viper.get_string (text "listen.api") cfg')
            (parts.viper.get_string (text "api.token") cfg'))
          s
unfolding ◌==◌
init_config-serves parts given printed cfg cfg' same unset started s = rw (
    init_config-same parts.viper given (text "api-disable")
      (parts.viper.get_bool (text "api-disable")) same cfg refl refl refl refl started
    ∙ unset)

-- What viper gives for the lists of ignored headers: what was set, and the default.
pub record GivesIgnores {V : Type 0} (viper : Viper V) : Type 0 where
  pub get-set :
      (xs : List Text) (cfg : V)
      → viper.get_string_slice
          (text "publish.IgnoreHeaders")
          (viper.set (text "publish.IgnoreHeaders") (strings xs) cfg)
        ≡ xs
  pub get-set_default :
      (xs : List Text) (cfg : V)
      → viper.get_string_slice
          (text "default.IgnoreHeaders")
          (viper.set_default (text "default.IgnoreHeaders") (strings xs) cfg)
        ≡ xs

-- None of the seven headers that `initConfig` always ignores is passed on with a published message,
-- whatever the command line and the configuration file add, in any letter case. The configuration file
-- may not set `default.IgnoreHeaders`.
pub visit_headers-defaults :
    {V : Type 0} (viper : Viper V) (given : Text → Option Setting) (printed : Text) (cfg cfg' : V)
    (hs : List (Text × Text)) (k : Text)
    → Unaffected viper
        (text "default.IgnoreHeaders")
        (viper.get_string_slice (text "default.IgnoreHeaders"))
    → GivesIgnores viper
    → init_config viper given cfg ≡ configured printed cfg'
    → trim_space k ≡ k
    → is_ignored k default_ignores ≡ true
    → lookup k (visit_headers (viper.get_string_slice (text "publish.IgnoreHeaders") cfg') hs [])
      ≡ none
unfolding before_file lookup
visit_headers-defaults viper given printed cfg cfg' hs k same gives started trimmed ignored =
    let key = text "default.IgnoreHeaders" in
    let read = (viper.read_in_config (before_file viper given cfg)).1 in
    let others = viper.get_string_slice (text "publish.IgnoreHeaders") read in
    let defaults : viper.get_string_slice key read ≡ default_ignores =
      same.read_in_config _
      ∙ find_config-same viper given key (viper.get_string_slice key) same _
      ∙ gives.get-set_default default_ignores _ in
    let all : viper.get_string_slice (text "publish.IgnoreHeaders") cfg'
        ≡ default_ignores ++ others =
      sym (
        ap (viper.get_string_slice (text "publish.IgnoreHeaders"))
          (init_config-read viper given cfg started))
      ∙ gives.get-set _ read
      ∙ ap (λ xs. xs ++ others) defaults in
    rw (
      all,
      visit_headers-lookup (default_ignores ++ others) hs [] k trimmed,
      is_ignored-append k default_ignores others ignored,
    )
