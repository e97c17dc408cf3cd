-- ===== src/Tests/Services.antt =====
-- Runs of the two services (api.go), with a router that tries the routes in their order.
use wmq.Common.{
  ◌≡◌, refl, sym, ap, ◌∙◌, inl, inr, ◌≢◌, ◌&&◌, not, true, false, none, some, Option, List, [], ◌∷◌,
  Text, text, ◌==◌, ==_iff, ==_refl, nat_eq, nat_eq-cases, if◌then◌else◌, Option-cases, Bool-cases,
}
use wmq.Common.Dict.{lookup}
use wmq.Api.{check_request}
use wmq.Api.Logs.{split}
use wmq.Registry.Lookups.{DistinctNames}
use wmq.Services.{
  in_time, too_late, Pattern, static, named, Entry, Router, Matches, Registered, IsRouter,
  ApiRequest, PublishRequest, serve_each, serve_api, serve_publish,
}
use wmq.Tests.Registries.{counting, two_messages, two_messages-DistinctNames}
use wmq.Tests.Apis.{service, add_request}
use wmq.Tests.Logs.{logs, file_request}
use wmq.Tests.Deliveries.{json, marshal, ignored, posted}
use wmq.Services.Reached.{Refused, serve_each-DistinctNames, serve_api-Refused}
use wmq.Services.Names.{ServePublishOutcome, serve_publish_lem}

abbrev segment : Text → List Text → Option Text
segment name (x ∷ []) = if x == name && not (x == []) then some name else none
segment name xs = none

abbrev matched : Pattern → Text → Option Text
matched (static p) path = if p == path then some [] else none
matched named [] = none
matched named (c ∷ name) = if nat_eq c b'/' then segment name (split b'/' name) else none

abbrev first_match : {H : Type 0} → Router H
first_match [] method path = none
first_match (e ∷ es) method path =
    let rest = first_match es method path in
    elim (matched e.pattern path) [
      | none ↦ rest
      | some name ↦ if e.method == method then some (e.handler, name) else rest
    ]

none-some : {A : Type 0} {a : A} → none ≡ some a → ⊥
none-some e = cc

some-injective : {A : Type 0} {a b : A} → some a ≡ some b → a ≡ b
some-injective e = cc

true-false : true ≡ false → ⊥
true-false e = cc

segment-some :
    (s : Text) (xs : List Text) (name : Text)
    → segment s xs ≡ some name
    → (s ≡ name) × (name ≢ []) × (xs ≡ name ∷ [])
segment-some s [] name h = absurd (none-some h)
segment-some s (x ∷ []) name h = elim (Bool-cases (x == s)) [
  | inl same ↦ elim (Bool-cases (x == [])) [
    | inl empty ↦ absurd (none-some (rw (same, empty) at h))
    | inr full ↦
        let here = some-injective (rw (same, full) at h) in
        (
          here,
          λ e. true-false (sym (==_refl []) ∙ (rw ((==_iff x s).0 same, here, e) at full)),
          ap (λ t. t ∷ []) ((==_iff x s).0 same ∙ here),
        )
  ]
  | inr other ↦ absurd (none-some (rw other at h))
]
segment-some s (x ∷ (y ∷ xs)) name h = absurd (none-some h)

matched-Matches :
    (p : Pattern) (path name : Text) → matched p path ≡ some name → Matches p path name
matched-Matches (static p) path name h = elim (Bool-cases (p == path)) [
  | inl same ↦ (==_iff p path).0 same
  | inr other ↦ absurd (none-some (rw other at h))
]
matched-Matches named [] name h = absurd (none-some h)
matched-Matches named (c ∷ path) name h = elim (nat_eq-cases c b'/') [
  | inl (slash, yes_slash) ↦
      let (whole, full, alone) = segment-some path (split b'/' path) name (rw yes_slash at h) in
      (
        ap (λ x. x ∷ path) slash ∙ ap (λ t. b'/' ∷ t) whole,
        full,
        ap (split b'/') (sym whole) ∙ alone,
      )
  | inr (other, no_slash) ↦ absurd (none-some (rw no_slash at h))
]

first_match-Registered :
    {H : Type 0} (es : List (Entry H)) (method path : Text) (h : H) (name : Text)
    → first_match es method path ≡ some (h, name)
    → Registered es method path h name
first_match-Registered [] method path h name e = absurd (none-some e)
first_match-Registered (x ∷ es) method path h name e =
    elim (Option-cases (matched x.pattern path)) [
      | inl lost ↦ inr (first_match-Registered es method path h name (rw (lost, first_match) at e))
      | inr (n, found) ↦ elim (Bool-cases (x.method == method)) [
        | inl same ↦
            let here = some-injective (rw (found, same, first_match) at e) in
            inl (
              (==_iff x.method method).0 same,
              ap (λ x. x.0) here,
              matched-Matches x.pattern path name (found ∙ ap (λ x. some x.1) here),
            )
        | inr other ↦
            inr (first_match-Registered es method path h name (rw (found, other, first_match) at e))
      ]
    ]

first_match-IsRouter : {H : Type 0} → IsRouter (first_match {H = H})
first_match-IsRouter = record { registered = first_match-Registered }

-- The time-out of the second request comes while its handler runs.
abbrev requests : List ApiRequest
requests =
    record {
      method = text "GET";
      path = text "/message/add";
      timing = in_time;
      request = add_request;
    }
    ∷ record {
      method = text "GET";
      path = text "/message/add";
      timing = too_late;
      request = add_request;
    }
    ∷ []

serve_each-DistinctNames_example :
    DistinctNames
      (serve_each service logs first_match (text "secret") requests two_messages).1.messages
serve_each-DistinctNames_example =
    serve_each-DistinctNames service logs first_match (text "secret") requests two_messages
      two_messages-DistinctNames

-- A request for a log file with another token.
abbrev intruding : ApiRequest
intruding = record {
  method = text "GET";
  path = text "/log/file";
  timing = in_time;
  request = file_request;
}

serve_api-Refused_example :
    Refused (serve_api service logs first_match (text "other") intruding two_messages).0
    × ((serve_api service logs first_match (text "other") intruding two_messages).1 ≡ two_messages)
serve_api-Refused_example =
    serve_api-Refused service logs first_match (text "other") intruding two_messages
      (unfold check_request in unfold lookup in unfold ◌==◌ in refl)

abbrev post_orders : PublishRequest
post_orders = record { path = text "/orders"; timing = too_late; received = posted }

serve_publish_example :
    ServePublishOutcome
      (json (text "post") (text "hello"))
      marshal
      ignored
      counting
      post_orders
      two_messages
      (serve_publish
        (json (text "post") (text "hello"))
        marshal
        ignored
        counting
        first_match
        post_orders
        two_messages).0
      (serve_publish
        (json (text "post") (text "hello"))
        marshal
        ignored
        counting
        first_match
        post_orders
        two_messages).1
serve_publish_example =
    serve_publish_lem (json (text "post") (text "hello")) marshal ignored counting first_match
      post_orders two_messages first_match-IsRouter
