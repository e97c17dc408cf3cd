-- ===== src/Storage/Restart.antt =====
-- What `loadMessagesFromFile` of message.go finds: the messages of the last write, also the write of a
-- handler of api.go.
use wmq.Common.{
  ◌≡◌, refl, sym, ap, ◌∙◌, ◌⊎◌, inl, inr, true, false, none, some, List, Text, text, Result, ok,
  err, Option-cases, Bool-cases, Result-cases, [],
}
use wmq.Registry.{Message}
use wmq.Registry.Backend.{State}
use wmq.Storage.Values.{Value, NilSlices, messages_value, children_messages}
use wmq.Storage.{
  Gabs, FileSystem, file_get_contents, parse_messages, write_messages_to_file,
  load_messages_from_file,
}
use wmq.Storage.Decoding.{written, children_messages-written}
use wmq.Api.{Request, Service, Content, in_callback}
use wmq.Api.Handlers.{Route, serve}
use wmq.Api.Saves.{changes, serve-IsSaved}

module _ {W : Type 0} (gabs : Gabs) (fs : FileSystem W) (path : Text) where
  -- The file exists and this is read from it.
  pub record Holds (content : Text) (w : W) : Type 0 where
    pub exists : fs.is_not_exist path w ≡ false
    pub contents : file_get_contents fs path w ≡ ok content

  -- What is written without an error is read back.
  abbrev pub KeepsFiles : Type 0
  KeepsFiles =
      (content : Text) (w w' : W) → fs.write_file path content w ≡ (none, w') → Holds content w'

  -- The text of these messages is parsed to the value that was printed.
  abbrev pub ReadsBack : NilSlices → List Message → Type 0
  ReadsBack nils ms =
      gabs.parse_json (gabs.string_indent (messages_value nils ms))
      ≡ some (written (messages_value nils ms))

  load-Holds :
      (v : Value) (content : Text) (s : State W)
      → Holds content s.world
      → gabs.parse_json content ≡ some v
      → load_messages_from_file gabs fs path s
        ≡ (ok (children_messages v), record s { messages = children_messages v })
  unfolding load_messages_from_file parse_messages
  load-Holds v content s h parsed = rw (h.exists, h.contents, parsed)

  -- Messages written without an error are loaded again, all of them and in their order, whatever the
  -- messages before the load were.
  pub load-write :
      (nils : NilSlices) (ms other : List Message) (w w' : W)
      → ReadsBack nils ms
      → KeepsFiles
      → write_messages_to_file gabs fs nils path ms w ≡ (none, w')
      → load_messages_from_file gabs fs path (record { messages = other; world = w' })
        ≡ (ok ms, record { messages = ms; world = w' })
  unfolding write_messages_to_file
  load-write nils ms other w w' back keeps wrote =
      load-Holds (written (messages_value nils ms)) _ (record { messages = other; world = w' })
        (keeps _ w w' wrote) back
      ∙ ap (λ x. (ok x, record { messages = x; world = w' })) (children_messages-written nils ms)

  -- After an answer with the code 1 to a request that changes the messages, a program that starts anew
  -- loads exactly the messages that the handler left.
  pub load-serve :
      (service : Service W) (nils : NilSlices) (route : Route) (r : Request) (s : State W)
      (callback : Text) (content : Content)
      → ((ms : List Message) (w : W)
          → service.write_messages_to_file ms w ≡ write_messages_to_file gabs fs nils path ms w)
      → KeepsFiles
      → ReadsBack nils (serve service route r s).1.messages
      → changes route ≡ true
      → (serve service route r s).0.body ≡ in_callback callback (ok content)
      → load_messages_from_file gabs fs path (record (serve service route r s).1 { messages = [] })
        ≡ (ok (serve service route r s).1.messages, (serve service route r s).1)
  load-serve service nils route r s callback content writes keeps back changing answered =
      let (w, wrote) = serve-IsSaved service route r s callback content changing answered in
      load-write nils (serve service route r s).1.messages [] w (serve service route r s).1.world
        back keeps (sym (writes _ w) ∙ wrote)

  -- The file is there, but cannot be read, or holds no JSON.
  abbrev pub Unreadable : State W → Type 0
  Unreadable s =
      (fs.is_not_exist path s.world ≡ false)
      × (((e : Text) × (file_get_contents fs path s.world ≡ err e))
          ⊎ ((content : Text) × (file_get_contents fs path s.world ≡ ok content)
              × (gabs.parse_json content ≡ none)))

  abbrev pub LoadOutcome : State W → Result (List Message) → State W → Type 0
  LoadOutcome s r s' =
      ((fs.is_not_exist path s.world ≡ true)
        × (r ≡ ok [])
        × (s' ≡ record s { world = (fs.write_file path (text "[]") s.world).1 }))
      ⊎ ((Unreadable s × (r ≡ ok []) × (s' ≡ s))
          ⊎ ((content : Text) × (v : Value) × Holds content s.world
              × (gabs.parse_json content ≡ some v)
              × (r ≡ ok (children_messages v))
              × (s' ≡ record s { messages = children_messages v })))

  pub load-Unreadable :
      (s : State W) → Unreadable s → load_messages_from_file gabs fs path s ≡ (ok [], s)
  unfolding load_messages_from_file parse_messages
  load-Unreadable s (there, inl (e, failed)) = rw (there, failed)
  load-Unreadable s (there, inr (content, read, bad)) = rw (there, read, bad)

  -- `loadMessagesFromFile` never returns an error. A missing file is written, or not if that fails; a file that
  -- cannot be read, or is no JSON, leaves all as it was; in both cases no messages are answered. The
  -- values of any other file, decoded, are answered and set.
  pub load_messages_from_file_lem :
      (s : State W)
      → LoadOutcome s
          (load_messages_from_file gabs fs path s).0
          (load_messages_from_file gabs fs path s).1
  unfolding load_messages_from_file parse_messages
  load_messages_from_file_lem s = elim (Bool-cases (fs.is_not_exist path s.world)) [
    | inl missing ↦ rw missing (inl (refl, refl, refl))
    | inr there ↦ elim (Result-cases (file_get_contents fs path s.world)) [
      | inl (content, read) ↦ elim (Option-cases (gabs.parse_json content)) [
        | inl bad ↦
            let lost = load-Unreadable s (there, inr (content, read, bad)) in
            inr (inl ((there, inr (content, read, bad)), ap (λ x. x.0) lost, ap (λ x. x.1) lost))
        | inr (v, parsed) ↦
            let loaded =
              load-Holds v content s (record { exists = there; contents = read }) parsed in
            inr (
              inr (
                content,
                v,
                record { exists = there; contents = read },
                parsed,
                ap (λ x. x.0) loaded,
                ap (λ x. x.1) loaded,
              ))
      ]
      | inr (e, failed) ↦
          let lost = load-Unreadable s (there, inl (e, failed)) in
          inr (inl ((there, inl (e, failed)), ap (λ x. x.0) lost, ap (λ x. x.1) lost))
    ]
  ]
