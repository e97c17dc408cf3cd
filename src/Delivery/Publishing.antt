-- ===== src/Delivery/Publishing.antt =====
-- `apiPublish` (api.go): a request to publish, on the state of the registry. Go's `ToLower` and
-- `TrimSpace` are written for ASCII, which methods and header names are.
use wmq.Common.{
  ℕ, ◌≡◌, refl, ◌⊎◌, inl, inr, ◌≢◌, Bool, true, false, not, ◌&&◌, ◌||◌, List, [], ◌∷◌, Text, text,
  to_lower, ◌==◌, ==_iff, leb, nat_eq, if◌then◌else◌, Result, ok, err, arith, Bool-cases,
}
use wmq.Common.Dict.{Dict, insert}
use wmq.Registry.{Message, message_is_exists, get_message}
use wmq.Registry.Backend.{Backend, State, call}
use wmq.Registry.Lookups.{IsFirst, get_message_lem}
use wmq.Registry.Reads.{publish-call}
use wmq.Registry.Operations.{publish}
use wmq.Delivery.{Json}
use wmq.Delivery.Base64.{encode_to_string}

-- What `apiPublish` reads of a request. The address is the text that JSON makes of it.
pub record Incoming : Type 0 where
  pub name : Text
  pub query_string : Text
  pub token : Text
  pub route_key : Text
  pub method : Text
  pub headers : List (Text × Text)
  pub body : Text
  pub remote_ip : Text

pub record Answer : Type 0 where
  pub status : ℕ
  pub body : Text

abbrev is_space : ℕ → Bool
is_space c = nat_eq c 32 || (leb 9 c && leb c 13)

abbrev trim_left : Text → Text
trim_left [] = []
trim_left (c ∷ s) = let rest = trim_left s in if is_space c then rest else c ∷ s

abbrev trim_right : Text → Text
trim_right [] = []
trim_right (c ∷ s) = elim (trim_right s) [
  | [] ↦ if is_space c then [] else c ∷ []
  | d ∷ rest ↦ c ∷ d ∷ rest
]

abbrev pub trim_space : Text → Text
trim_space s = trim_right (trim_left s)

abbrev pub is_ignored : Text → List Text → Bool
is_ignored k [] = false
is_ignored k (i ∷ ignores) =
    if to_lower (trim_space k) == to_lower (trim_space i) then true else is_ignored k ignores

-- `VisitAll` with its callback.
unfoldable pub visit_headers : List Text → List (Text × Text) → Dict Text → Dict Text
visit_headers ignores [] d = d
visit_headers ignores ((k, v) ∷ hs) d =
    visit_headers ignores hs (if is_ignored k ignores then d else insert (trim_space k) v d)

module _ {J : Type 0} (json : Json J) (marshal : Dict Text → Text) (ignores : List Text) where
  -- The fields of the message. The headers are the text of a JSON object, and as such a string.
  unfoldable pub mq_fields : Incoming → Dict Text
  unfolding visit_headers
  mq_fields r =
      (text "header", marshal (visit_headers ignores r.headers []))
      ∷ (text "ip", r.remote_ip)
      ∷ (text "body", encode_to_string r.body)
      ∷ (text "method", to_lower r.method)
      ∷ (text "args", r.query_string)
      ∷ []

  abbrev pub mq_message : Incoming → Text
  mq_message r = json.print (mq_fields r)

  abbrev pub answer_of : Result (Unit {0}) → Answer
  answer_of (ok u) = record { status = 204; body = [] }
  answer_of (err e) = record { status = 500; body = e }

  unfoldable pub api_publish : {W : Type 0} → Backend W → Incoming → State W → Answer × State W
  api_publish b r s = elim (get_message r.name s.messages) [
    | err e ↦ (record { status = 500; body = e }, s)
    | ok (msg, i) ↦
        let (result, s') = publish b (mq_message r) r.name r.route_key r.token s in
        if msg.is_need_token && not (r.token == msg.token)
        then (record { status = 500; body = text "token error" }, s)
        else (answer_of result, s')
  ]

  abbrev pub ApiPublishOutcome :
      {W : Type 0} → Backend W → Incoming → State W → Answer → State W → Type 0
  ApiPublishOutcome b r s a s' =
      ((message_is_exists r.name s.messages ≡ false)
        × (a ≡ record { status = 500; body = text "message not found" })
        × (s' ≡ s))
      ⊎ ((m : Message) × (i : ℕ) × IsFirst r.name s.messages i m
          × (((m.is_need_token ≡ true)
                × (r.token ≢ m.token)
                × (a ≡ record { status = 500; body = text "token error" })
                × (s' ≡ s))
              ⊎ (((m.is_need_token ≡ true) → r.token ≡ m.token)
                  × (let (result, t) =
                        call (b.publish_on_channel r.name r.route_key (mq_message r)) s in
                      (a ≡ answer_of result) × (s' ≡ t)))))

  -- A request is answered with 500 and does nothing when there is no message of the name, or when
  -- the message needs a token and this is another. Otherwise the message is given to the broker,
  -- once, and the answer is 204, or 500 with the broker's error.
  pub api_publish_lem :
      {W : Type 0} (b : Backend W) (r : Incoming) (s : State W)
      → ApiPublishOutcome b r s (api_publish b r s).0 (api_publish b r s).1
  unfolding api_publish
  api_publish_lem b r s = elim (get_message_lem r.name s.messages) [
    | inl (m, i, found, first) ↦ elim (Bool-cases m.is_need_token) [
      | inl needs ↦ elim (Bool-cases (r.token == m.token)) [
        | inl same ↦
            rw
              (
                found,
                api_publish,
                needs,
                same,
                publish-call b (mq_message r) r.name r.route_key r.token s found (rw (needs, same)),
              )
              (inr (m, i, first, inr (λ h. (==_iff r.token m.token).0 same, (refl, refl))))
        | inr other ↦
            rw (found, api_publish, needs, other)
              (inr (m, i, first, inl (needs, ground (arith, ==_iff r.token m.token), refl, refl)))
      ]
      | inr free ↦
          rw
            (
              found,
              api_publish,
              free,
              publish-call b (mq_message r) r.name r.route_key r.token s found (rw free),
            )
            (inr (m, i, first, inr (λ h. cc, (refl, refl))))
    ]
    | inr (missing, absent) ↦ rw (missing, api_publish) (inl (absent, refl, refl))
  ]
