-- ===== src/Api/Logs.antt =====
-- The log routes of api.go, and its access log. A path is the list of its names here; the file system and the
-- shell are parameters.
pub mod Confined
use wmq.Common.{
  ℕ, Bool, true, false, not, ◌&&◌, ◌||◌, Option, none, some, List, [], ◌∷◌, ◌++◌, map, Text, text,
  ◌==◌, nat_eq, if◌then◌else◌, Result, ok, err,
}
use wmq.Common.Dict.{Dict}
use wmq.Registry.Backend.{State, M, pure, fail}
use wmq.Api.{
  Request, Response, Content, string, base_names, peek, check_request, token_error, in_callback,
}

-- A path of package filepath: whether it starts at the root, and the names between its slashes.
pub record FilePath : Type 0 where
  pub is_abs : Bool
  pub names : List Text

abbrev push : ℕ → List Text → List Text
push c [] = (c ∷ []) ∷ []
push c (e ∷ es) = (c ∷ e) ∷ es

-- `strings.Split(s, "/")`, or at another byte.
abbrev pub split : ℕ → Text → List Text
split sep [] = [] ∷ []
split sep (c ∷ s) = let rest = split sep s in if nat_eq c sep then [] ∷ rest else push c rest

abbrev drop_last : List Text → List Text
drop_last [] = []
drop_last (x ∷ []) = []
drop_last (x ∷ (y ∷ xs)) = x ∷ drop_last (y ∷ xs)

abbrev ends_up : List Text → Bool
ends_up [] = false
ends_up (x ∷ []) = x == text ".."
ends_up (x ∷ (y ∷ xs)) = ends_up (y ∷ xs)

-- The parent of a clean path: that of the root is the root, and a relative path may go up.
abbrev pub parent : Bool → List Text → List Text
parent true names = drop_last names
parent false [] = text ".." ∷ []
parent false (x ∷ xs) = if ends_up (x ∷ xs) then (x ∷ xs) ++ text ".." ∷ [] else drop_last (x ∷ xs)

-- `filepath.Clean`, name by name.
abbrev step : Bool → List Text → Text → List Text
step is_abs names name =
    if name == [] || name == text "."
    then names
    else if name == text ".."
    then parent is_abs names
    else names ++ name ∷ []

unfoldable pub walk : Bool → List Text → List Text → List Text
walk is_abs names [] = names
walk is_abs names (e ∷ es) = walk is_abs (step is_abs names e) es

abbrev starts_at_root : Text → Bool
starts_at_root [] = false
starts_at_root (c ∷ s) = nat_eq c b'/'

unfoldable pub clean : Text → FilePath
unfolding walk
clean s = record { is_abs = starts_at_root s; names = walk (starts_at_root s) [] (split b'/' s) }

-- `filepath.Join` of a clean path and a text.
unfoldable pub join : FilePath → Text → FilePath
unfolding walk
join p s = record p { names = walk p.is_abs p.names (split b'/' s) }

abbrev between : List Text → Text
between [] = []
between (x ∷ []) = x
between (x ∷ (y ∷ xs)) = x ++ text "/" ++ between (y ∷ xs)

unfoldable pub path_text : FilePath → Text
path_text p =
    if p.is_abs
    then text "/" ++ between p.names
    else if between p.names == []
    then text "."
    else between p.names

-- `filepath.Abs`, in the working directory.
unfoldable pub abs : FilePath → FilePath → FilePath
unfolding walk
abs working p =
    if p.is_abs then p else record working { names = walk working.is_abs working.names p.names }

abbrev last_name : List Text → Text → Text
last_name [] last = last
last_name (x ∷ xs) last = last_name xs (if x == [] then last else x)

-- `filepath.Base`
unfoldable pub base : Text → Text
base [] = text "."
base (c ∷ s) = last_name (split b'/' (c ∷ s)) (text "/")

-- `strings.ContainsAny(s, "/\\")`
unfoldable pub has_slash : Text → Bool
has_slash [] = false
has_slash (c ∷ s) = (nat_eq c b'/' || nat_eq c 92) || has_slash s

-- What the routes use besides: `cfg.GetString("log.dir")`, which is not empty, the files of a pattern in their order, and a
-- command of `bash -c` with its output and its error.
pub record LogFiles (W : Type 0) : Type 0 where
  pub api_token : Text
  pub log_dir : Text
  pub working : FilePath
  pub glob : Text → W → List Text
  pub is_not_exist : FilePath → W → Bool
  pub run : Text → W → (Text × Option Text) × W

-- `apiLogFile` answers, or sends a file under a name.
pub data FileReply : Type 0 where
  answers : Response → FileReply
  sends_file : (name : Text) → FilePath → FileReply

module _ {W : Type 0} (logs : LogFiles W) where
  unfoldable pub log_directory : FilePath
  unfolding clean abs
  log_directory = abs logs.working (clean logs.log_dir)

  unfoldable pub api_log_list : M W Content
  unfolding log_directory base path_text
  api_log_list s =
      (ok (base_names (map base (logs.glob (path_text log_directory ++ text "/*") s.world))), s)

  -- The path of a log of a type: `.log` is put after the text of the joined path.
  unfoldable pub log_path : Text → Text
  unfolding clean join path_text abs
  log_path type =
      path_text
        (abs logs.working (clean (path_text (join (clean logs.log_dir) type) ++ text ".log")))

  unfoldable pub log_command : Text → Text → Text
  unfolding log_path
  log_command keyword type =
      if keyword == []
      then text "tail -n 100 " ++ log_path type
      else text "grep \"" ++ keyword ++ text "\" " ++ log_path type ++ text " |tail -n 100"

  unfoldable pub api_log : Request → M W Content
  unfolding log_command
  api_log r s =
      if peek r "type" == []
      then fail (text "args required.10012") s
      else let ((out, e), w) = logs.run (log_command (peek r "keyword") (peek r "type")) s.world in
        elim e [
          | none ↦ pure (string out) (record s { world = w })
          | some e ↦ fail e (record s { world = w })
        ]

  -- A request without the token is refused first, as by the other handlers.
  unfoldable pub with_token : (Request → M W Content) → Request → State W → Response × State W
  unfolding check_request
  with_token handler r s =
      let (result, s') = handler r s in
      if check_request logs.api_token r
      then (record { status = 200; body = in_callback (peek r "callback") result }, s')
      else (record { status = 500; body = token_error }, s)

  abbrev refuses : Request → Text → FileReply
  refuses r e = answers (record { status = 200; body = in_callback (peek r "callback") (err e) })

  unfoldable pub api_log_file : Request → W → FileReply
  unfolding check_request join log_directory has_slash
  api_log_file r w =
      let filename = peek r "file" in
      let file = join log_directory filename in
      if not (check_request logs.api_token r)
      then answers (record { status = 500; body = token_error })
      else if filename == [] || has_slash filename
      then refuses r (text "args required.10011")
      else if logs.is_not_exist file w
      then refuses r (text "file not found")
      else sends_file filename file

-- A request as the access log writes it.
pub record Accessed : Type 0 where
  pub code : Text
  pub uri : Text
  pub remote_addr : Text
  pub method : Text
  pub host : Text
  pub referer : Text
  pub user_agent : Text
  pub response : Text
  pub body : Text

abbrev first : List Text → Text
first [] = []
first (x ∷ xs) = x

-- The fields of `access`; `log_post` is `cfg.GetBool("log.post")`.
unfoldable pub access : Bool → Accessed → Dict Text
access log_post a =
    (text "code", a.code)
    ∷ (text "uri", a.uri)
    ∷ (text "remoteAddr", first (split b':' a.remote_addr))
    ∷ (text "method", a.method)
    ∷ (text "host", a.host)
    ∷ (text "referer", a.referer)
    ∷ (text "userAgent", a.user_agent)
    ∷ (text "response", a.response)
    ∷ (text "post", if log_post then a.body else [])
    ∷ []
