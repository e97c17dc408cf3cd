-- ===== src/Tests/Storages.antt =====
-- Runs of the file of the messages (message.go), with a file system of one file and a JSON library that
-- knows one text.
use wmq.Common.{
  ◌≡◌, refl, ap, subst, true, false, not, Option, none, some, is_some, List, [], ◌∷◌, Text, text,
  ok, err, Result,
}
use wmq.Registry.{Message}
use wmq.Registry.Backend.{State}
use wmq.Storage.Values.{NilSlices, messages_value}
use wmq.Storage.{Gabs, FileSystem, write_messages_to_file, load_messages_from_file}
use wmq.Storage.Decoding.{written}
use wmq.Storage.Restart.{Holds, KeepsFiles, LoadOutcome, load-write, load_messages_from_file_lem}
use wmq.Tests.Registries.{orders, bills}

-- What the file holds, none when it is missing.
abbrev pub File : Type 0
File = Option Text

abbrev pub contents_of : File → Result Text
contents_of (some content) = ok content
contents_of none = err (text "no such file")

abbrev pub one_file : FileSystem File
one_file = record {
  is_not_exist = λ path w. not (is_some w);
  write_file = λ path content w. (none, some content);
  read_file = λ path w. contents_of w;
}

abbrev pub no_nils : NilSlices
no_nils = record { messages = false; consumers = λ m. true }

-- The library for these messages.
abbrev pub gabs_of : List Message → Gabs
gabs_of ms = record {
  parse_json = λ t. some (written (messages_value no_nils ms));
  string_indent = λ v. text "[…]";
}

pub one_file-KeepsFiles : (gabs : Gabs) (path : Text) → KeepsFiles gabs one_file path
one_file-KeepsFiles gabs path = λ content w w' wrote.
    subst (Holds gabs one_file path content) (ap (λ x. x.1) wrote)
      (record { exists = refl; contents = refl })

load-write_example :
    load_messages_from_file
      (gabs_of (orders ∷ bills ∷ []))
      one_file
      (text "message.json")
      (record { messages = []; world = some (text "[…]") })
    ≡ (
      ok (orders ∷ bills ∷ []),
      record { messages = orders ∷ bills ∷ []; world = some (text "[…]") },
    )
load-write_example =
    load-write (gabs_of (orders ∷ bills ∷ [])) one_file (text "message.json") no_nils
      (orders ∷ bills ∷ []) [] none (some (text "[…]")) refl (one_file-KeepsFiles _ _)
      (unfold write_messages_to_file in refl)

-- The file is missing.
abbrev nothing : State File
nothing = record { messages = orders ∷ []; world = none }

load_messages_from_file_example :
    LoadOutcome
      (gabs_of [])
      one_file
      (text "message.json")
      nothing
      (load_messages_from_file (gabs_of []) one_file (text "message.json") nothing).0
      (load_messages_from_file (gabs_of []) one_file (text "message.json") nothing).1
load_messages_from_file_example =
    load_messages_from_file_lem (gabs_of []) one_file (text "message.json") nothing
