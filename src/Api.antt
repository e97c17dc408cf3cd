-- ===== src/Api.antt =====
-- api.go: the handlers of the management service, on the state of the registry. A handler runs as
-- one step here; the checks that come before the call under `msgLock` are part of it.
pub mod Numbers
pub mod Handlers
pub mod Saves
pub mod Races
pub mod Names
pub mod Logs
use wmq.Common.{
  ℕ, Bool, true, false, not, ◌||◌, ◌&&◌, Option, none, some, List, [], ◌∷◌, ◌++◌, Text, text, ◌==◌,
  Result, ok, err, if◌then◌else◌, String,
}
use wmq.Common.Dict.{Dict, lookup}
use wmq.Registry.{Message, Consumer, Number}
use wmq.Registry.Backend.{Backend, State, M, pure, fail, ◌>>=◌, ◌>>◌}
use wmq.Registry.Operations.{ConsumerStatus}

-- The query arguments, in order.
pub record Request : Type 0 where
  pub args : Dict Text

-- What the handlers use besides the registry: the file of the messages, random identifiers and the
-- conversion of an `int` to a `float64`.
pub record Service (W : Type 0) : Type 0 where
  pub backend : Backend W
  pub write_messages_to_file : List Message → W → Option Text × W
  pub new_v4 : W → Text × W
  pub to_float64 : Number → Number
  pub api_token : Text

-- The field `data` of an answer.
pub data Content : Type 0 where
  null : Content
  base_names : List Text → Content
  string : Text → Content
  all_messages : List Message → Content
  statuses : List (Option ConsumerStatus) → Content
  one_status : ConsumerStatus → Content

-- `response` writes the code 1 with the data or 0 with the error, in a call of `callback` if that
-- is not empty; the two status handlers write the code 1 and the data without the callback.
pub data Body : Type 0 where
  token_error : Body
  in_callback : Text → Result Content → Body
  plain : Content → Body

pub record Response : Type 0 where
  pub status : ℕ
  pub body : Body

-- `string(ctx.QueryArgs().Peek(name))`
abbrev pub peek : Request → String → Text
peek r name = elim (lookup (text name) r.args) [ some v ↦ v | none ↦ [] ]

-- `checkRequest`
unfoldable pub check_request : Text → Request → Bool
check_request api_token r = elim (lookup (text "api-token") r.args) [
  | some token ↦ token == api_token
  | none ↦ false
]
