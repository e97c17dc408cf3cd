-- ===== src/Storage.antt =====
-- message.go: the file of the messages. Written and read JSON is a tree here, and gabs, which turns it
-- into text and back, a parameter, as is the file system.
pub mod Values
pub mod Decoding
pub mod Restart
use wmq.Common.{
  ◌||◌, ◌&&◌, Bool, true, false, Option, none, some, List, [], ◌∷◌, Text, text, to_lower, ◌==◌,
  if◌then◌else◌, Result, ok, err,
}
use wmq.Registry.{Message, Consumer, Number, pos}
use wmq.Storage.Values.{Value, NilSlices, messages_value, children_messages}
use wmq.Registry.Backend.{State, M, pure, fail}

-- The calls of gabs: `ParseJSON`, and `StringIndent("", "\t")`.
pub record Gabs : Type 0 where
  pub parse_json : Text → Option Value
  pub string_indent : Value → Text

pub record FileSystem (W : Type 0) : Type 0 where
  pub is_not_exist : Text → W → Bool
  pub write_file : Text → Text → W → Option Text × W
  pub read_file : Text → W → Result Text

-- `fileGetContents` of utils.go: its recovery makes a panic an error like those of `ReadFile`.
abbrev pub file_get_contents : {W : Type 0} → FileSystem W → Text → W → Result Text
file_get_contents fs path w = elim (fs.read_file path w) [ ok bytes ↦ ok bytes | err e ↦ err e ]

-- `parseMessages`: when the text is no JSON, `Children` is called on nil, which panics.
unfoldable pub parse_messages : Gabs → Text → Result (List Message)
parse_messages gabs str = elim (gabs.parse_json str) [
  | some v ↦ ok (children_messages v)
  | none ↦ err (text "runtime error: invalid memory address or nil pointer dereference")
]

module _ {W : Type 0} (gabs : Gabs) (fs : FileSystem W) where
  unfoldable pub write_messages_to_file : NilSlices → Text → List Message → W → Option Text × W
  write_messages_to_file nils path ms =
      fs.write_file path (gabs.string_indent (messages_value nils ms))

  -- `loadMessagesFromFile`: its `if` declares an `err` of its own, which all errors are set in, so that
  -- the named result stays nil. `parseMessages` gives no messages with an error.
  unfoldable pub load_messages_from_file : Text → M W (List Message)
  unfolding parse_messages
  load_messages_from_file path s =
      if fs.is_not_exist path s.world
      then pure [] (record s { world = (fs.write_file path (text "[]") s.world).1 })
      else elim (file_get_contents fs path s.world) [
        | ok content ↦ elim (parse_messages gabs content) [
          | ok messages0 ↦ pure messages0 (record s { messages = messages0 })
          | err e ↦ pure [] s
        ]
        | err e ↦ pure [] s
      ]
