-- ===== src/Start/Reaches.antt =====
-- What the start of the program (wmq.go) comes to, and with which messages.
use wmq.Common.{
  ◌≡◌, refl, ◌⊎◌, inl, inr, true, none, some, List, [], ◌++◌, Text, text, Result, ok, err,
  if◌then◌else◌, Option-cases, Result-cases, Bool-cases,
}
use wmq.Registry.{Message}
use wmq.Registry.Backend.{State, ◌>>=◌, ◌>>◌}
use wmq.Registry.Operations.{init_messages}
use wmq.Registry.Changes.{init_messages-messages}
use wmq.Storage.Values.{NilSlices, children_messages}
use wmq.Storage.{write_messages_to_file, load_messages_from_file}
use wmq.Storage.Restart.{
  KeepsFiles, ReadsBack, load-serve, Unreadable, load-Unreadable, load_messages_from_file_lem,
}
use wmq.Api.{Request, Service, Content, in_callback}
use wmq.Api.Handlers.{Route, serve}
use wmq.Api.Saves.{changes}
use wmq.Start.{Parts, uri, data_file, init, main, start}

module _ {V W : Type 0} (parts : Parts V W) (cfg : V) where
  -- The services run.
  abbrev serving : W → W
  serving w = parts.serve_publish (parts.viper.get_string (text "listen.publish") cfg) (
      if parts.viper.get_bool (text "api-disable") cfg
      then w
      else parts.serve_api (parts.viper.get_string (text "listen.api") cfg)
          (parts.viper.get_string (text "api.token") cfg) w)

  abbrev MessagesOutcome : State W → Result (Unit {0}) → State W → Type 0
  MessagesOutcome s r s' =
      ((e : Text) × ((init_messages parts.backend s).0 ≡ err e)
        × (r ≡ err (text "%s " ++ e))
        × (s' ≡ (init_messages parts.backend s).1))
      ⊎ (((init_messages parts.backend s).0 ≡ ok tt)
          × (r ≡ ok tt)
          × (s' ≡ record {
            messages = s.messages;
            world = serving (init_messages parts.backend s).1.world;
          }))

  abbrev ChannelsOutcome : State W → Result (Unit {0}) → State W → Type 0
  ChannelsOutcome s r s' =
      ((e : Text) × ((parts.init_channel_pool s.world).0 ≡ some e)
        × (r ≡ err (text "init Channel Pool fail : " ++ e))
        × (s' ≡ record s { world = (parts.init_channel_pool s.world).1 }))
      ⊎ (((parts.init_channel_pool s.world).0 ≡ none)
          × MessagesOutcome
              (record s { world = parts.init_consumer_manager (parts.init_channel_pool s.world).1 })
              r s')

  abbrev pub PoolsOutcome : State W → Result (Unit {0}) → State W → Type 0
  PoolsOutcome s r s' =
      ((e : Text) × ((parts.init_pool (uri parts cfg) s.world).0 ≡ some e)
        × (r ≡ err (text "init connection to rabbitmq fail : " ++ e))
        × (s' ≡ record s { world = (parts.init_pool (uri parts cfg) s.world).1 }))
      ⊎ (((parts.init_pool (uri parts cfg) s.world).0 ≡ none)
          × ChannelsOutcome (record s { world = (parts.init_pool (uri parts cfg) s.world).1 }) r s')

  -- The load comes first, and never ends the program.
  abbrev pub StartOutcome : State W → Result (Unit {0}) → State W → Type 0
  StartOutcome s r s' =
      (ms : List Message) × (s₁ : State W) × (load_messages_from_file parts.gabs parts.files
          (data_file parts cfg) s
        ≡ (ok ms, s₁))
      × PoolsOutcome (record s₁ { messages = ms }) r s'

  main_lem :
      (s : State W)
      → MessagesOutcome
          (record s { world = parts.init_consumer_manager s.world })
          (main parts cfg s).0
          (main parts cfg s).1
  unfolding main
  main_lem s =
      let s₁ = record s { world = parts.init_consumer_manager s.world } in
      elim (Result-cases (init_messages parts.backend s₁).0) [
        | inl (u, fine) ↦ elim (Bool-cases (parts.viper.get_bool (text "api-disable") cfg)) [
          | inl off ↦
              rw (fine, off, main, ◌>>=◌, ◌>>◌)
                (inr (refl, refl, rw (init_messages-messages parts.backend s₁, serving, off)))
          | inr on ↦
              rw (fine, on, main, ◌>>=◌, ◌>>◌)
                (inr (refl, refl, rw (init_messages-messages parts.backend s₁, serving, on)))
        ]
        | inr (e, failed) ↦ rw (failed, main, ◌>>=◌, ◌>>◌) (inl (e, refl, refl, refl))
      ]

  -- The start after the load.
  start-loaded :
      (ms : List Message) (s s₁ : State W)
      → load_messages_from_file parts.gabs parts.files (data_file parts cfg) s ≡ (ok ms, s₁)
      → PoolsOutcome (record s₁ { messages = ms }) (start parts cfg s).0 (start parts cfg s).1
  unfolding start init
  start-loaded ms s s₁ loaded =
      let s₂ = record s₁ { world = (parts.init_pool (uri parts cfg) s₁.world).1; messages = ms } in
      elim (Option-cases (parts.init_pool (uri parts cfg) s₁.world).0) [
        | inl made ↦ elim (Option-cases (parts.init_channel_pool s₂.world).0) [
          | inl opened ↦
              rw (loaded, made, opened, start, init, ◌>>=◌, ◌>>◌)
                (inr (refl, inr (refl, main_lem _)))
          | inr (e, failed) ↦
              rw (loaded, made, failed, start, init, ◌>>=◌, ◌>>◌)
                (inr (refl, inl (e, refl, refl, refl)))
        ]
        | inr (e, failed) ↦
            rw (loaded, failed, start, init, ◌>>=◌, ◌>>◌) (inl (e, refl, refl, refl))
      ]

  -- The start of the program ends with the error of a pool or of `initMessages`, whichever is the first,
  -- and does nothing after it; without an error the services run last. Whatever the file of the messages
  -- is like, the program goes on with what the load answered.
  pub start_lem : (s : State W) → StartOutcome s (start parts cfg s).0 (start parts cfg s).1
  start_lem s = elim (load_messages_from_file_lem parts.gabs parts.files (data_file parts cfg) s) [
    | inl (missing, none_loaded, reached) ↦ loads [] (pair none_loaded reached)
    | inr (inl (lost, none_loaded, reached)) ↦ loads [] (pair none_loaded reached)
    | inr (inr (content, v, h, parsed, loaded, reached)) ↦
        loads (children_messages v) (pair loaded reached)
  ]
    where
      loads :
          (ms : List Message) {s₁ : State W}
          → load_messages_from_file parts.gabs parts.files (data_file parts cfg) s ≡ (ok ms, s₁)
          → StartOutcome s (start parts cfg s).0 (start parts cfg s).1
      loads ms {s₁} e = (ms, s₁, e, start-loaded ms s s₁ e)

      pair :
          {x : Result (List Message) × State W} {r : Result (List Message)} {s₁ : State W}
          → x.0 ≡ r
          → x.1 ≡ s₁
          → x ≡ (r, s₁)
      pair e e' = λ i. (e i, e' i)

  -- When the file of the messages is there but cannot be read, or is no JSON, the program starts all the same,
  -- and goes on to the pools with no messages, so that the next change is written over the file.
  pub start-Unreadable :
      (s : State W)
      → Unreadable parts.gabs parts.files (data_file parts cfg) s
      → PoolsOutcome (record s { messages = [] }) (start parts cfg s).0 (start parts cfg s).1
  start-Unreadable s lost =
      start-loaded [] s s (load-Unreadable parts.gabs parts.files (data_file parts cfg) s lost)

  -- A program that starts anew after an answer with the code 1 to a request that changes the messages
  -- loads the file that the handler wrote, and goes on to the pools with exactly the messages that the
  -- handler left. The file system must keep what it wrote, and the JSON library must read back what it
  -- printed.
  pub start-serve :
      (service : Service W) (nils : NilSlices) (route : Route) (r : Request) (s : State W)
      (callback : Text) (content : Content)
      → ((ms : List Message) (w : W)
          → service.write_messages_to_file ms w
            ≡ write_messages_to_file parts.gabs parts.files nils (data_file parts cfg) ms w)
      → KeepsFiles parts.gabs parts.files (data_file parts cfg)
      → ReadsBack parts.gabs parts.files
          (data_file parts cfg)
          nils
          (serve service route r s).1.messages
      → changes route ≡ true
      → (serve service route r s).0.body ≡ in_callback callback (ok content)
      → PoolsOutcome
          (serve service route r s).1
          (start parts cfg (record (serve service route r s).1 { messages = [] })).0
          (start parts cfg (record (serve service route r s).1 { messages = [] })).1
  start-serve service nils route r s callback content writes keeps back changing answered =
      start-loaded (serve service route r s).1.messages _ _ (
        load-serve parts.gabs parts.files (data_file parts cfg) service nils route r s callback
          content writes keeps back changing answered)
