-- ===== src/Delivery/Acknowledged.antt =====
-- What it means that `process` of message.go returns no error: the message is acknowledged then.
use wmq.Common.{
  ℕ, ◌≡◌, refl, ap, ◌∙◌, ◌⊎◌, inl, inr, Bool, true, false, not, ◌&&◌, ◌||◌, Option, none, some, [],
  ◌∷◌, ◌++◌, Text, text, ◌==◌, ==_iff, ltb, length, if◌then◌else◌, Bool-cases, Option-cases,
}
use wmq.Registry.{Consumer}
use wmq.Delivery.Base64.{decode_string}
use wmq.Delivery.{
  Json, Outgoing, Client, Processed, returns, panics, is_code, target, header_map, drop_message,
  send, send_as, process,
}

-- The body of a message that is dropped for it.
abbrev pub DropsBody : Text → Text → Type 0
DropsBody method body =
    (method ≡ text "post") × ((body == []) ≡ false) × (decode_string body ≡ none)

abbrev pub sent_method : Text → Text
sent_method method = if method == text "post" then text "POST" else text "GET"

module _ {W : Type 0} where
  panics-returns : {e : Option Text} {w : W} → panics ≡ returns e w → ⊥
  panics-returns e = cc

  failed-returns : {e : Text} {v w : W} → returns (some e) v ≡ returns none w → ⊥
  failed-returns e = cc

  returns-injective : {d e : Option Text} {v w : W} → returns d v ≡ returns e w → v ≡ w
  returns-injective e = cc

  -- A request was made that the consumer answered in time, with its code when codes are checked.
  abbrev pub Answered : Client W → Consumer → Text → Text → W → W → Type 0
  Answered client c url method w w' =
      (req : Outgoing) × (code : ℕ) × (client.do_timeout req w ≡ ((none, code), w'))
      × (req.uri ≡ url)
      × (req.method ≡ method)
      × ((c.check_code && not (is_code code c.code)) ≡ false)

  send-Answered :
      (client : Client W) (c : Consumer) (req : Outgoing) (w w' : W)
      → send client c req w ≡ returns none w'
      → Answered client c req.uri req.method w w'
  unfolding send
  send-Answered client c req w w' h =
      let ((e, code), w₁) = client.do_timeout req w in
      elim (Option-cases e) [
        | inr (x, failed) ↦ absurd (failed-returns (rw (failed, send) at h))
        | inl fine ↦ elim (Bool-cases (c.check_code && not (is_code code c.code))) [
          | inl bad ↦ absurd (failed-returns (rw (fine, bad, send) at h))
          | inr good ↦ (
            req,
            code,
            ap (λ x. ((x, code), w₁)) fine
                ∙ ap (λ x. ((none, code), x)) (returns-injective (rw (fine, good, send) at h)),
            refl,
            refl,
            good,
          )
        ]
      ]

  send_as-Answered :
      (client : Client W) (c : Consumer) (method body : Text) (req : Outgoing) (w w' : W)
      → send_as client c method body req w ≡ returns none w'
      → (DropsBody method body × (w ≡ w')) ⊎ Answered client c req.uri (sent_method method) w w'
  unfolding send_as
  send_as-Answered client c method body req w w' h = elim (Bool-cases (method == text "post")) [
    | inl post ↦ elim (Bool-cases (body == [])) [
      | inl empty ↦ rw post (
          inr (
            send-Answered client c (record req { method = text "POST" }) w w'
              (rw (post, empty) at h)))
      | inr full ↦ elim (Option-cases (decode_string body)) [
        | inl bad ↦ inl (
          ((==_iff method (text "post")).0 post, full, bad),
          returns-injective (rw (post, full, bad) at h),
        )
        | inr (decoded, good) ↦ rw post (
            inr (
              send-Answered client c (record req { method = text "POST"; body = decoded }) w w'
                (rw (post, full, good) at h)))
      ]
    ]
    | inr other ↦ elim (Bool-cases (method == text "get")) [
      | inl is_get ↦ rw other (
          inr (
            send-Answered client c (record req { method = text "GET" }) w w'
              (rw (other, is_get) at h)))
      | inr unknown ↦ absurd (failed-returns (rw (other, unknown) at h))
    ]
  ]

  drop_message-returns :
      (content : Text) (w w' : W) → drop_message content w ≡ returns none w' → w ≡ w'
  unfolding drop_message
  drop_message-returns content w w' h = elim (Bool-cases (ltb (length content) 20)) [
    | inl short ↦ absurd (panics-returns (rw short at h))
    | inr long ↦ returns-injective (rw long at h)
  ]

  field_of :
      {A : Type 0} (o : Option A) (f : A → Processed W) (w : W)
      → elim o [ some x ↦ f x | none ↦ panics ] ≡ returns none w
      → (x : A) × (o ≡ some x) × (f x ≡ returns none w)
  field_of none f w h = absurd (panics-returns h)
  field_of (some x) f w h = (x, refl, h)

  module _ {J : Type 0} (json : Json J) (client : Client W) (c : Consumer) where
    abbrev pub lacks_fields : J → Bool
    lacks_fields j =
        not (json.has_field j (text "body"))
        || (not (json.has_field j (text "header"))
            || (not (json.has_field j (text "ip"))
                || (not (json.has_field j (text "method"))
                    || not (json.has_field j (text "args")))))

    -- How a message comes to be dropped: it is no JSON, it lacks a field, or its body cannot be decoded.
    abbrev pub Dropped : Text → Type 0
    Dropped content =
        (json.parse content ≡ none)
        ⊎ ((j : J) × (json.parse content ≡ some j)
            × ((lacks_fields j ≡ true)
                ⊎ ((method : Text) × (body : Text) × (json.string_at j (text "method")
                      ≡ some method)
                    × (json.string_at j (text "body") ≡ some body)
                    × DropsBody method body)))

    -- The message was sent with its method, to the URL with its arguments.
    abbrev pub Delivered : Text → W → W → Type 0
    Delivered content w w' =
        (j : J) × (method : Text) × (args : Text) × (json.parse content ≡ some j)
        × (json.string_at j (text "method") ≡ some method)
        × (json.string_at j (text "args") ≡ some args)
        × Answered client c (target c.url args) (sent_method method) w w'

    -- When `process` returns no error, so that the message is acknowledged, either the message is not
    -- supported and nothing was done, or the consumer answered the message's request in time, and with
    -- its code when codes are checked.
    pub process-Delivered :
        (content : Text) (w w' : W)
        → process json client content c w ≡ returns none w'
        → (Dropped content × (w ≡ w')) ⊎ Delivered content w w'
    unfolding process
    process-Delivered content w w' h = elim (Option-cases (json.parse content)) [
      | inl bad ↦ inl (inl bad, drop_message-returns content w w' (rw (bad, process) at h))
      | inr (j, parsed) ↦ elim (Bool-cases (lacks_fields j)) [
        | inl lacks ↦ inl (
          inr (j, parsed, inl lacks),
          drop_message-returns content w w' (rw (parsed, lacks, process) at h),
        )
        | inr complete ↦
            let (body, is_body, h₁) =
              field_of (json.string_at j (text "body")) _ w'
                (rw (parsed, complete, process) at h) in
            let (ip, is_ip, h₂) = field_of (json.string_at j (text "ip")) _ w' h₁ in
            let (args, is_args, h₃) = field_of (json.string_at j (text "args")) _ w' h₂ in
            let (method, is_method, h₄) = field_of (json.string_at j (text "method")) _ w' h₃ in
            let (headers, are_headers, h₅) =
              field_of (header_map (json.children_map j (text "header"))) _ w' h₄ in
            let req : Outgoing = record {
              uri = target c.url args;
              method = [];
              headers =
                  headers
                  ++ (client.real_ip_header, ip) ∷ (text "User-Agent", client.user_agent) ∷ [];
              body = [];
              timeout = c.timeout;
            } in
            elim (send_as-Answered client c method body req w w' h₅) [
              | inl (drops, same) ↦
                  inl (inr (j, parsed, inr (method, body, is_method, is_body, drops)), same)
              | inr answered ↦ inr (j, method, args, parsed, is_method, is_args, answered)
            ]
      ]
    ]
