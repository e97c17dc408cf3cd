-- ===== src/Services/Reached.antt =====
-- What requests to the management service (api.go) reach, through the router and the time-outs.
use wmq.Common.{
  ◌≡◌, refl, ap, ◌⊎◌, inl, inr, false, List, [], ◌∷◌, Text, Option-cases, Bool-cases, ◌==◌, Result,
}
use wmq.Registry.Backend.{State}
use wmq.Registry.Lookups.{DistinctNames}
use wmq.Api.{Request, Service, check_request, token_error, peek, Content}
use wmq.Api.Saves.{serve-refused}
use wmq.Api.Names.{serve-DistinctNames}
use wmq.Api.Logs.{
  LogFiles, FileReply, answers, api_log, api_log_file, with_token, api_log_list, log_command,
}
use wmq.Services.{
  Timing, in_time, too_late, too_many, Reply, by_handler, timed_out, busy, not_routed,
  timeout_factory, Router, Target, registry, log, log_file, log_list, ApiRequest, api_routes,
  call_target, serve_api, serve_each,
}

-- The replies that a request without the token can get.
abbrev pub Refused : Reply FileReply → Type 0
Refused reply =
    (reply ≡ not_routed)
    ⊎ ((reply ≡ timed_out)
        ⊎ ((reply ≡ busy)
            ⊎ (reply ≡ by_handler (answers (record { status = 500; body = token_error })))))

-- What holds of a state and after the handler holds whatever the time-out does.
timeout_factory-keeps :
    {A S : Type 0} (P : S → Type 0) (t : Timing) (h : S → A × S) (s : S)
    → P s
    → P (h s).1
    → P (timeout_factory t h s).1
unfolding timeout_factory
timeout_factory-keeps P in_time h s before after = after
timeout_factory-keeps P too_late h s before after = after
timeout_factory-keeps P too_many h s before after = before

module _ {W : Type 0} (logs : LogFiles W) where
  api_log-messages : (r : Request) (s : State W) → (api_log logs r s).1.messages ≡ s.messages
  unfolding api_log
  api_log-messages r s =
      let command = log_command logs (peek r "keyword") (peek r "type") in
      elim (Bool-cases (peek r "type" == [])) [
        | inl empty ↦ rw empty
        | inr given ↦ elim (Option-cases (logs.run command s.world).0.1) [
          | inl fine ↦ rw (given, fine)
          | inr (e, failed) ↦ rw (given, failed)
        ]
      ]

  with_token-keeps :
      (P : State W → Type 0) (handler : Request → State W → Result Content × State W) (r : Request)
      (s : State W)
      → P s
      → P (handler r s).1
      → P (with_token logs handler r s).1
  unfolding with_token
  with_token-keeps P handler r s before after = elim (Bool-cases (check_request logs.api_token r)) [
    | inl allowed ↦ rw allowed after
    | inr refused ↦ rw refused before
  ]

  with_token-refused :
      (handler : Request → State W → Result Content × State W) (r : Request) (s : State W)
      → check_request logs.api_token r ≡ false
      → with_token logs handler r s ≡ (record { status = 500; body = token_error }, s)
  unfolding with_token
  with_token-refused handler r s refused = rw refused

  api_log_file-refused :
      (r : Request) (w : W)
      → check_request logs.api_token r ≡ false
      → api_log_file logs r w ≡ answers (record { status = 500; body = token_error })
  unfolding api_log_file
  api_log_file-refused r w refused = rw refused

module _ {W : Type 0} where
  timeout_factory-Refused :
      (t : Timing) (h : State W → FileReply × State W) (s : State W)
      → h s ≡ (answers (record { status = 500; body = token_error }), s)
      → Refused (timeout_factory t h s).0 × ((timeout_factory t h s).1 ≡ s)
  unfolding timeout_factory
  timeout_factory-Refused in_time h s e =
      (inr (inr (inr (ap (λ x. by_handler x.0) e))), ap (λ x. x.1) e)
  timeout_factory-Refused too_late h s e = (inr (inl refl), ap (λ x. x.1) e)
  timeout_factory-Refused too_many h s e = (inr (inr (inl refl)), refl)

module _ {W : Type 0} (service : Service W) (logs : LogFiles W) where
  call_target-DistinctNames :
      (target : Target) (t : Timing) (r : Request) (s : State W)
      → DistinctNames s.messages
      → DistinctNames (call_target service logs target t r s).1.messages
  unfolding call_target api_log_list
  call_target-DistinctNames (registry route) t r s h =
      timeout_factory-keeps (λ s. DistinctNames s.messages) t _ s h
        (serve-DistinctNames service route r s h)
  call_target-DistinctNames log t r s h =
      timeout_factory-keeps (λ s. DistinctNames s.messages) t _ s h
        (with_token-keeps logs (λ s. DistinctNames s.messages) (api_log logs) r s h
          (rw (api_log-messages logs r s) h))
  call_target-DistinctNames log_list t r s h =
      timeout_factory-keeps (λ s. DistinctNames s.messages) t _ s h
        (with_token-keeps logs (λ s. DistinctNames s.messages) (λ r. api_log_list logs) r s h h)
  call_target-DistinctNames log_file t r s h = h

  call_target-Refused :
      (target : Target) (t : Timing) (r : Request) (s : State W)
      → check_request service.api_token r ≡ false
      → check_request logs.api_token r ≡ false
      → Refused (call_target service logs target t r s).0
        × ((call_target service logs target t r s).1 ≡ s)
  unfolding call_target
  call_target-Refused (registry route) t r s no_token no_log_token =
      timeout_factory-Refused t _ s
        (ap (λ x. (answers x.0, x.1)) (serve-refused service route r s no_token))
  call_target-Refused log t r s no_token no_log_token =
      timeout_factory-Refused t _ s
        (ap (λ x. (answers x.0, x.1)) (with_token-refused logs (api_log logs) r s no_log_token))
  call_target-Refused log_list t r s no_token no_log_token = timeout_factory-Refused t _ s (
      ap (λ x. (answers x.0, x.1))
        (with_token-refused logs (λ r. api_log_list logs) r s no_log_token))
  call_target-Refused log_file t r s no_token no_log_token =
      (inr (inr (inr (ap by_handler (api_log_file-refused logs r s.world no_log_token)))), refl)

module _ {W : Type 0} (service : Service W) (logs : LogFiles W) (find : Router Target)
    (token : Text) where
  serve_api-DistinctNames :
      (h : ApiRequest) (s : State W)
      → DistinctNames s.messages
      → DistinctNames (serve_api service logs find token h s).1.messages
  unfolding serve_api
  serve_api-DistinctNames h s distinct = elim (Option-cases (find api_routes h.method h.path)) [
    | inl lost ↦ rw (lost, serve_api, DistinctNames) distinct
    | inr ((target, name), found) ↦
        rw (found, serve_api)
          (call_target-DistinctNames (record service { api_token = token })
            (record logs { api_token = token }) target h.timing h.request s distinct)
  ]

  -- When no two messages have one name, that stays so whatever the management service is asked for, by
  -- whatever methods and paths, in time or not, and whatever the router, the broker, the manager, the
  -- shell and the file answer.
  pub serve_each-DistinctNames :
      (hs : List ApiRequest) (s : State W)
      → DistinctNames s.messages
      → DistinctNames (serve_each service logs find token hs s).1.messages
  unfolding serve_each
  serve_each-DistinctNames [] s distinct = distinct
  serve_each-DistinctNames (h ∷ hs) s distinct =
      serve_each-DistinctNames hs _ (serve_api-DistinctNames h s distinct)

  -- A request without the token of the service does nothing, whatever its method, its path and its
  -- time-out. Its reply is of the router, of the time-out, or the token error with the status 500; no file
  -- is sent.
  pub serve_api-Refused :
      (h : ApiRequest) (s : State W)
      → check_request token h.request ≡ false
      → Refused (serve_api service logs find token h s).0
        × ((serve_api service logs find token h s).1 ≡ s)
  unfolding serve_api
  serve_api-Refused h s no_token = elim (Option-cases (find api_routes h.method h.path)) [
    | inl lost ↦ rw (lost, serve_api) (inl refl, refl)
    | inr ((target, name), found) ↦
        rw (found, serve_api)
          (call_target-Refused (record service { api_token = token })
            (record logs { api_token = token }) target h.timing h.request s no_token no_token)
  ]
