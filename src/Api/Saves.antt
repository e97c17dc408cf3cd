-- ===== src/Api/Saves.antt =====
-- The handlers that change the messages write the file of the messages (api.go).
use wmq.Common.{
  ◌≡◌, sym, ap, ◌∙◌, inl, inr, Bool, true, false, none, Text, Result, ok, err, Option-cases,
  Bool-cases,
}
use wmq.Registry.Backend.{State, M, pure, continue, ◌>>=◌, ◌>>◌}
use wmq.Api.{Request, Service, Content, peek, in_callback, token_error, check_request}
use wmq.Api.Handlers.{
  Route, message_add, message_update, message_delete, message_status, consumer_add, consumer_update,
  consumer_delete, consumer_status, reload_all, restart_all, config, save, add_unless,
  api_message_add, api_message_update, api_message_delete, api_consumer_add, api_consumer_update,
  api_consumer_delete, handle, serve,
}

-- The routes that are meant to change the messages.
abbrev pub changes : Route → Bool
changes message_add = true
changes message_update = true
changes message_delete = true
changes consumer_add = true
changes consumer_update = true
changes consumer_delete = true
changes route = false

ok-err : {A : Type 0} {a : A} {e : Text} → ok a ≡ err e → ⊥
ok-err h = cc

module _ {W : Type 0} (service : Service W) where
  -- The last thing done was to write the file, without an error, with the messages of the state.
  abbrev pub IsSaved : State W → Type 0
  IsSaved s = (w : W) × (service.write_messages_to_file s.messages w ≡ (none, s.world))

  -- An answer of a value comes with this.
  record Saves {A : Type 0} (m : M W A) : Type 0 where
    saved : (s : State W) (a : A) → (m s).0 ≡ ok a → IsSaved (m s).1

  Saves-continue :
      {A B : Type 0} (f : A → M W B)
      → ((a : A) → Saves (f a))
      → (r : Result A) (s : State W) (b : B) → (continue r f s).0 ≡ ok b
      → IsSaved (continue r f s).1
  Saves-continue f h (ok a) s b e = (h a).saved s b e
  Saves-continue f h (err x) s b e = cc

  -- A block saves when the rest of it does.
  Saves-then :
      {A B : Type 0} (m : M W A) (f : A → M W B) → ((a : A) → Saves (f a)) → Saves (m >>= f)
  Saves-then m f h = record { saved = λ s b e. Saves-continue f h (m s).0 (m s).1 b e }

  Saves-save : {A : Type 0} (a : A) → Saves (save service >> pure a)
  Saves-save a = record {
    saved = λ s b e.
        let written = service.write_messages_to_file s.messages s.world in
        elim (Option-cases written.0) [
          | inl fine ↦ rw (fine, ◌>>=◌) (s.world, ap (λ x. (x, written.1)) fine)
          | inr (x, failed) ↦ absurd (ok-err {e = x} (sym e ∙ rw (failed, ◌>>=◌)))
        ];
  }

  handle-Saves :
      (route : Route) (r : Request) → changes route ≡ true → Saves (handle service route r)
  unfolding handle add_unless api_message_add api_message_update api_message_delete api_consumer_add
      api_consumer_update api_consumer_delete
  handle-Saves message_add r h = search (Saves-save, Saves-then) depth 10
  handle-Saves message_update r h = search (Saves-save, Saves-then) depth 10
  handle-Saves message_delete r h = search (Saves-save, Saves-then) depth 10
  handle-Saves consumer_add r h = search (Saves-save, Saves-then) depth 10
  handle-Saves consumer_update r h = search (Saves-save, Saves-then) depth 10
  handle-Saves consumer_delete r h = search (Saves-save, Saves-then) depth 10
  handle-Saves message_status r h = cc
  handle-Saves consumer_status r h = cc
  handle-Saves reload_all r h = cc
  handle-Saves restart_all r h = cc
  handle-Saves config r h = cc

  -- An answer to a request with the token, on a route that changes the messages.
  serve-allowed :
      (route : Route) (r : Request) (s : State W)
      → changes route ≡ true
      → check_request service.api_token r ≡ true
      → let (result, s') = handle service route r s in
        serve service route r s
        ≡ (record { status = 200; body = in_callback (peek r "callback") result }, s')
  unfolding serve
  serve-allowed message_add r s h allowed = rw allowed
  serve-allowed message_update r s h allowed = rw allowed
  serve-allowed message_delete r s h allowed = rw allowed
  serve-allowed consumer_add r s h allowed = rw allowed
  serve-allowed consumer_update r s h allowed = rw allowed
  serve-allowed consumer_delete r s h allowed = rw allowed
  serve-allowed message_status r s h allowed = cc
  serve-allowed consumer_status r s h allowed = cc
  serve-allowed reload_all r s h allowed = cc
  serve-allowed restart_all r s h allowed = cc
  serve-allowed config r s h allowed = cc

  in_callback-ok :
      {x y : Text} {a : Result Content} {content : Content}
      → in_callback x a ≡ in_callback y (ok content)
      → a ≡ ok content
  in_callback-ok e = cc

  token_error-in_callback : {x : Text} {a : Result Content} → token_error ≡ in_callback x a → ⊥
  token_error-in_callback e = cc

  -- Without the token every route answers with the status 500 and the error, and does nothing.
  pub serve-refused :
      (route : Route) (r : Request) (s : State W)
      → check_request service.api_token r ≡ false
      → serve service route r s ≡ (record { status = 500; body = token_error }, s)
  unfolding serve
  serve-refused route r s refused = rw refused

  -- When a route that changes the messages answers with the code 1, the file of the messages was
  -- written last, without an error, and holds the messages of the state reached.
  pub serve-IsSaved :
      (route : Route) (r : Request) (s : State W) (callback : Text) (content : Content)
      → changes route ≡ true
      → (serve service route r s).0.body ≡ in_callback callback (ok content)
      → IsSaved (serve service route r s).1
  serve-IsSaved route r s callback content h answered =
      elim (Bool-cases (check_request service.api_token r)) [
        | inl allowed ↦
            let served = serve-allowed route r s h allowed in
            rw served (
              (handle-Saves route r h).saved s content
                (in_callback-ok (sym (ap (λ x. x.0.body) served) ∙ answered)))
        | inr refused ↦ absurd (
            token_error-in_callback
              (sym (ap (λ x. x.0.body) (serve-refused route r s refused)) ∙ answered))
      ]
