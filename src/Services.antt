-- ===== src/Services.antt =====
-- api.go: `serveAPI` and `servePublish`, from a request to its reply. The router and the time-out handler are
-- packages: the router is a parameter, and a request carries what became of its time-out. A handler is one
-- step, also when it goes on after the time-out; the access log is in Api/Logs.
pub mod Reached
pub mod Names
use wmq.Common.{◌≡◌, ◌≢◌, ◌⊎◌, Option, none, some, List, [], ◌∷◌, ◌++◌, Text, text}
use wmq.Registry.Backend.{Backend, State}
use wmq.Api.{Request, Response, Service}
use wmq.Api.Handlers.{
  Route, message_add, message_update, message_delete, message_status, consumer_add, consumer_update,
  consumer_delete, consumer_status, reload_all, restart_all, config, serve,
}
use wmq.Api.Logs.{
  LogFiles, FileReply, answers, split, api_log, api_log_list, api_log_file, with_token,
}
use wmq.Delivery.{Json}
use wmq.Delivery.Publishing.{Incoming, Answer, api_publish}
use wmq.Common.Dict.{Dict}

-- `fasthttp.TimeoutHandler`: the handler ends in time, or goes on after its request was answered, or is
-- not called because too many are running.
pub data Timing : Type 0 where
  in_time too_late too_many : Timing

-- The reply is of the handler, of the time-out with its status 408 or 429, or of the router, which found
-- no route.
pub data Reply (A : Type 0) : Type 0 where
  by_handler : A → Reply A
  timed_out busy not_routed : Reply A

unfoldable pub timeout_factory : {A S : Type 0} → Timing → (S → A × S) → S → Reply A × S
timeout_factory in_time h s = let (a, s') = h s in (by_handler a, s')
timeout_factory too_late h s = (timed_out, (h s).1)
timeout_factory too_many h s = (busy, s)

-- A path as it is written, or `/:name`.
pub data Pattern : Type 0 where
  static : Text → Pattern
  named : Pattern

pub record Entry (H : Type 0) : Type 0 where
  pub method : Text
  pub pattern : Pattern
  pub handler : H

-- From the routes, a method and a path to the handler and the name in the path.
abbrev pub Router : Type 0 → Type 0
Router H = List (Entry H) → Text → Text → Option (H × Text)

-- The path has the pattern. A name is not empty and is one segment of a path.
abbrev pub Matches : Pattern → Text → Text → Type 0
Matches (static p) path name = p ≡ path
Matches named path name = (path ≡ text "/" ++ name) × (name ≢ []) × (split b'/' name ≡ name ∷ [])

abbrev pub Registered : {H : Type 0} → List (Entry H) → Text → Text → H → Text → Type 0
Registered [] method path h name = ⊥
Registered (e ∷ es) method path h name =
    ((e.method ≡ method) × (e.handler ≡ h) × Matches e.pattern path name)
    ⊎ Registered es method path h name

-- The router calls handlers that were registered for the method and the path.
pub record IsRouter {H : Type 0} (find : Router H) : Type 0 where
  pub registered :
      (es : List (Entry H)) (method path : Text) (h : H) (name : Text)
      → find es method path ≡ some (h, name)
      → Registered es method path h name

-- `router.GET(pattern, handler)` and `router.POST(pattern, handler)`
abbrev pub router_get : {H : Type 0} → Pattern → H → Entry H
router_get p h = record { method = text "GET"; pattern = p; handler = h }

abbrev pub router_post : {H : Type 0} → Pattern → H → Entry H
router_post p h = record { method = text "POST"; pattern = p; handler = h }

-- The handlers of the management service.
pub data Target : Type 0 where
  registry : Route → Target
  log log_file log_list : Target

unfoldable pub api_routes : List (Entry Target)
api_routes =
    router_get (static (text "/message/add")) (registry message_add)
    ∷ router_get (static (text "/message/update")) (registry message_update)
    ∷ router_get (static (text "/message/delete")) (registry message_delete)
    ∷ router_get (static (text "/message/status")) (registry message_status)
    ∷ router_get (static (text "/consumer/add")) (registry consumer_add)
    ∷ router_get (static (text "/consumer/update")) (registry consumer_update)
    ∷ router_get (static (text "/consumer/delete")) (registry consumer_delete)
    ∷ router_get (static (text "/consumer/status")) (registry consumer_status)
    ∷ router_get (static (text "/reload")) (registry reload_all)
    ∷ router_get (static (text "/restart")) (registry restart_all)
    ∷ router_get (static (text "/config")) (registry config)
    ∷ router_get (static (text "/log")) log
    ∷ router_get (static (text "/log/file")) log_file
    ∷ router_get (static (text "/log/list")) log_list
    ∷ []

pub record ApiRequest : Type 0 where
  pub method : Text
  pub path : Text
  pub timing : Timing
  pub request : Request

abbrev of_response : {S : Type 0} → Response × S → FileReply × S
of_response (r, s) = (answers r, s)

module _ {W : Type 0} (service : Service W) (logs : LogFiles W) where
  -- A handler, in `timeoutFactory` but for that of the log files.
  unfoldable pub call_target : Target → Timing → Request → State W → Reply FileReply × State W
  unfolding timeout_factory serve with_token api_log api_log_list api_log_file
  call_target (registry route) t r s =
      timeout_factory t (λ s. of_response (serve service route r s)) s
  call_target log t r s =
      timeout_factory t (λ s. of_response (with_token logs (api_log logs) r s)) s
  call_target log_list t r s =
      timeout_factory t (λ s. of_response (with_token logs (λ r. api_log_list logs) r s)) s
  call_target log_file t r s = (by_handler (api_log_file logs r s.world), s)

module _ {W : Type 0} (service : Service W) (logs : LogFiles W) (find : Router Target) where
  -- `serveAPI`: it sets the token, and its router serves each request.
  unfoldable pub serve_api : Text → ApiRequest → State W → Reply FileReply × State W
  unfolding call_target api_routes
  serve_api token h s = elim (find api_routes h.method h.path) [
    | none ↦ (not_routed, s)
    | some (target, name) ↦
        call_target (record service { api_token = token }) (record logs { api_token = token })
          target h.timing h.request s
  ]

  -- Requests one after the other.
  unfoldable pub serve_each : Text → List ApiRequest → State W → List (Reply FileReply) × State W
  unfolding serve_api
  serve_each token [] s = ([], s)
  serve_each token (h ∷ hs) s =
      let (reply, s₁) = serve_api token h s in
      let (rest, s₂) = serve_each token hs s₁ in (reply ∷ rest, s₂)

-- The name that `received` has is not used: it is the router's.
pub record PublishRequest : Type 0 where
  pub path : Text
  pub timing : Timing
  pub received : Incoming

abbrev pub publish_routes : List (Entry (Unit {0}))
publish_routes = router_post named tt ∷ router_get named tt ∷ []

module _ {J : Type 0} (json : Json J) (marshal : Dict Text → Text) (ignores : List Text)
    {W : Type 0} (b : Backend W) (find : Router (Unit {0})) where
  unfoldable pub serve_publish : PublishRequest → State W → Reply Answer × State W
  unfolding timeout_factory api_publish
  serve_publish h s = elim (find publish_routes h.received.method h.path) [
    | none ↦ (not_routed, s)
    | some (u, name) ↦
        timeout_factory h.timing
          (api_publish json marshal ignores b (record h.received { name = name })) s
  ]
