-- ===== src/Delivery/Arrives.antt =====
-- What arrives at a consumer of a message that was published (api.go, message.go).
use wmq.Common.{
  to_lower, ◌≡◌, ◌∙◌, none, some, List, [], ◌∷◌, Text, text, ◌==◌, is_some, Bool-cases, inl, inr,
}
use wmq.Common.Dict.{Dict, lookup}
use wmq.Registry.{Consumer}
use wmq.Delivery.{Json, Outgoing, Client, target, send, send_as, process, drop_message}
use wmq.Delivery.Base64.{encode_to_string, AreBytes}
use wmq.Delivery.Base64.RoundTrip.{encode_to_string-Empty, decode_string-encode_to_string}
use wmq.Delivery.Publishing.{Incoming, mq_fields, mq_message}

-- The text that the JSON library prints of string fields is read as an object with these.
pub record Reads {J : Type 0} (json : Json J) (fields : Dict Text) : Type 0 where
  pub value : J
  pub parsed : json.parse (json.print fields) ≡ some value
  pub fields_read : (k : Text) → json.has_field value k ≡ is_some (lookup k fields)
  pub strings_read : (k : Text) → json.string_at value k ≡ lookup k fields
  pub no_children : (k : Text) → json.children_map value k ≡ none

module _ {J : Type 0} (json : Json J) (marshal : Dict Text → Text) (ignores : List Text) where
  -- The request that `process` makes of a published message.
  abbrev pub delivered : {W : Type 0} → Client W → Consumer → Incoming → Text → Text → Outgoing
  delivered client c r method body = record {
    uri = target c.url r.query_string;
    method = method;
    headers = (client.real_ip_header, r.remote_ip) ∷ (text "User-Agent", client.user_agent) ∷ [];
    body = body;
    timeout = c.timeout;
  }

  process-send_as :
      {W : Type 0} (client : Client W) (c : Consumer) (r : Incoming) (w : W)
      → Reads json (mq_fields json marshal ignores r)
      → process json client (mq_message json marshal ignores r) c w
        ≡ send_as client c
            (to_lower r.method)
            (encode_to_string r.body)
            (delivered client c r [] [])
            w
  unfolding process mq_fields lookup ◌==◌
  process-send_as client c r w j = rw (
    j.parsed,
    process,
    drop_message,
    j.fields_read (text "body"),
    j.fields_read (text "header"),
    j.fields_read (text "ip"),
    j.fields_read (text "method"),
    j.fields_read (text "args"),
    j.strings_read (text "body"),
    j.strings_read (text "ip"),
    j.strings_read (text "args"),
    j.strings_read (text "method"),
    j.no_children (text "header"),
  )

  -- When the JSON library reads back what it printed, a message published by POST, with a body of
  -- bytes, is sent to the consumer by POST, with this body and its query, the address of the
  -- publisher and the program's user agent; of its headers none is sent.
  pub process-post :
      {W : Type 0} (client : Client W) (c : Consumer) (r : Incoming) (w : W)
      → Reads json (mq_fields json marshal ignores r)
      → AreBytes r.body
      → to_lower r.method ≡ text "post"
      → process json client (mq_message json marshal ignores r) c w
        ≡ send client c (delivered client c r (text "POST") r.body) w
  unfolding send_as ◌==◌
  process-post client c r w j bytes post =
      process-send_as client c r w j
      ∙ rw post (elim (Bool-cases (encode_to_string r.body == [])) [
        | inl bare ↦ rw (bare, send_as, encode_to_string-Empty r.body bare)
        | inr full ↦ rw (full, send_as, decode_string-encode_to_string r.body bytes)
      ])

  -- When the JSON library reads back what it printed, a message published by GET is sent to the
  -- consumer by GET, without a body, and with its query; the only headers are the publisher's
  -- address and the user agent.
  pub process-get :
      {W : Type 0} (client : Client W) (c : Consumer) (r : Incoming) (w : W)
      → Reads json (mq_fields json marshal ignores r)
      → to_lower r.method ≡ text "get"
      → process json client (mq_message json marshal ignores r) c w
        ≡ send client c (delivered client c r (text "GET") []) w
  unfolding send_as ◌==◌
  process-get client c r w j get = process-send_as client c r w j ∙ rw get
