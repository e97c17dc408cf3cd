-- ===== src/Services/Names.antt =====
-- What requests to the publishing service (api.go) reach, through the router and the time-outs.
use wmq.Common.{◌≡◌, refl, sym, ◌⊎◌, inl, inr, ◌≢◌, List, [], ◌∷◌, ◌++◌, Text, text, Option-cases}
use wmq.Common.Dict.{Dict}
use wmq.Registry.Backend.{Backend, State}
use wmq.Api.Logs.{split}
use wmq.Delivery.{Json}
use wmq.Delivery.Publishing.{Answer, ApiPublishOutcome, api_publish, api_publish_lem}
use wmq.Services.{
  Timing, in_time, too_late, too_many, Reply, by_handler, timed_out, busy, not_routed,
  timeout_factory, Router, IsRouter, Registered, named, Matches, PublishRequest, publish_routes,
  serve_publish,
}

-- The two routes are one but for the method.
Registered-publish :
    (method path : Text) (u : Unit {0}) (name : Text)
    → Registered publish_routes method path u name
    → ((method ≡ text "POST") ⊎ (method ≡ text "GET")) × Matches named path name
Registered-publish method path u name (inl (m, same, matches)) = (inl (sym m), matches)
Registered-publish method path u name (inr (inl (m, same, matches))) = (inr (sym m), matches)
Registered-publish method path u name (inr (inr lost)) = absurd lost

module _ {J : Type 0} (json : Json J) (marshal : Dict Text → Text) (ignores : List Text)
    {W : Type 0} (b : Backend W) where
  -- The handler ran for the name, and its answer was the reply unless it came too late; or it did not run.
  abbrev TimedOutcome : PublishRequest → Text → State W → Reply Answer → State W → Type 0
  TimedOutcome h name s reply s' =
      ((reply ≡ busy) × (s' ≡ s))
      ⊎ ((a : Answer) × ApiPublishOutcome json marshal ignores b (record h.received { name = name })
            s a s'
          × ((reply ≡ by_handler a) ⊎ (reply ≡ timed_out)))

  -- No route, or that of a name which is the only segment of the path.
  abbrev pub ServePublishOutcome : PublishRequest → State W → Reply Answer → State W → Type 0
  ServePublishOutcome h s reply s' =
      ((reply ≡ not_routed) × (s' ≡ s))
      ⊎ ((name : Text) × ((h.received.method ≡ text "POST") ⊎ (h.received.method ≡ text "GET"))
          × (h.path ≡ text "/" ++ name)
          × (name ≢ [])
          × (split b'/' name ≡ name ∷ [])
          × TimedOutcome h name s reply s')

  timeout_factory-publish :
      (t : Timing) (h : PublishRequest) (name : Text) (s : State W)
      → let handler = api_publish json marshal ignores b (record h.received { name = name }) in
        TimedOutcome h name s (timeout_factory t handler s).0 (timeout_factory t handler s).1
  unfolding timeout_factory
  timeout_factory-publish in_time h name s =
      inr
        (_, api_publish_lem json marshal ignores b (record h.received { name = name }) s, inl refl)
  timeout_factory-publish too_late h name s =
      inr
        (_, api_publish_lem json marshal ignores b (record h.received { name = name }) s, inr refl)
  timeout_factory-publish too_many h name s = inl (refl, refl)

  -- A request to the publishing service does nothing unless its method is POST or GET and its path is a
  -- slash and one segment. With the segment as the name of the message it then comes to what
  -- `apiPublish` comes to, also when the reply is the time-out's; or it does nothing because too many
  -- requests are running.
  pub serve_publish_lem :
      (find : Router (Unit {0})) (h : PublishRequest) (s : State W)
      → IsRouter find
      → ServePublishOutcome h s
          (serve_publish json marshal ignores b find h s).0
          (serve_publish json marshal ignores b find h s).1
  unfolding serve_publish
  serve_publish_lem find h s router =
      elim (Option-cases (find publish_routes h.received.method h.path)) [
        | inl lost ↦ rw (lost, serve_publish) (inl (refl, refl))
        | inr ((u, name), found) ↦
            let (method, at) =
              Registered-publish h.received.method h.path u name
                (router.registered publish_routes h.received.method h.path u name found) in
            rw (found, serve_publish)
              (inr (name, method, at.0, at.1, at.2, timeout_factory-publish h.timing h name s))
      ]
