-- ===== src/Tests/Deliveries.antt =====
-- A run of a published message (api.go, message.go) to its consumer. The JSON library is one for
-- this message alone, and base64 leaves texts as they are.
use wmq.Common.{arith, ◌==◌, ◌⊎◌, ℕ, suc, ◌≡◌, refl, none, some, is_some, List, [], ◌∷◌, Text, text}
use wmq.Common.Dict.{Dict, lookup}
use wmq.Delivery.{Json, Client, returns, process, send, send_as}
use wmq.Delivery.Base64.{AreBytes, encode_to_string, decode_string}
use wmq.Delivery.Headers.{visit_headers-lookup}
use wmq.Delivery.Acknowledged.{Dropped, Delivered, process-Delivered}
use wmq.Delivery.Publishing.{Incoming, visit_headers, mq_fields, mq_message}
use wmq.Delivery.Arrives.{Reads, delivered, process-post}
use wmq.Tests.Registries.{a_consumer}

abbrev pub marshal : Dict Text → Text
marshal d = text "{}"

-- `hello` in base64
abbrev pub encoded : Text
encoded = text "aGVsbG8="

abbrev pub ignored : List Text
ignored = text "Token" ∷ []

abbrev fields : Text → Text → Dict Text
fields method body =
    (text "header", text "{}")
    ∷ (text "ip", text "10.0.0.1")
    ∷ (text "body", body)
    ∷ (text "method", method)
    ∷ (text "args", text "a=1")
    ∷ []

abbrev pub json : Text → Text → Json (Dict Text)
json method body = record {
  parse = λ t. some (fields method body);
  has_field = λ d k. is_some (lookup k d);
  string_at = λ d k. lookup k d;
  children_map = λ d k. none;
  print = λ d. text "{…}";
}

abbrev pub posted : Incoming
posted = record {
  name = text "orders";
  query_string = text "a=1";
  token = text "t";
  route_key = [];
  method = text "POST";
  headers = (text "Token", text "t") ∷ [];
  body = text "hello";
  remote_ip = text "10.0.0.1";
}

abbrev got : Incoming
got = record posted { method = text "Get"; body = [] }

abbrev pub client : Client ℕ
client = record {
  do_timeout = λ req n. ((none, 200), suc n);
  real_ip_header = text "x-forwarded-for";
  user_agent = text "wmq";
}

posted-Reads :
    Reads
      (json (text "post") encoded)
      (mq_fields (json (text "post") encoded) marshal ignored posted)
unfolding mq_fields encode_to_string
posted-Reads = record {
  value = fields (text "post") encoded;
  parsed = refl;
  fields_read = λ k. refl;
  strings_read = λ k. refl;
  no_children = λ k. refl;
}

got-Reads : Reads (json (text "get") []) (mq_fields (json (text "get") []) marshal ignored got)
unfolding mq_fields encode_to_string
got-Reads = record {
  value = fields (text "get") [];
  parsed = refl;
  fields_read = λ k. refl;
  strings_read = λ k. refl;
  no_children = λ k. refl;
}

hello-AreBytes : AreBytes (text "hello")
hello-AreBytes = (omega arith, (omega arith, (omega arith, (omega arith, (omega arith, tt)))))

process-post_example :
    process
      (json (text "post") encoded)
      client
      (mq_message (json (text "post") encoded) marshal ignored posted)
      a_consumer
      0
    ≡ send client a_consumer
        (delivered
          (json (text "post") encoded)
          marshal
          ignored
          client
          a_consumer
          posted
          (text "POST")
          (text "hello"))
        0
process-post_example =
    process-post (json (text "post") encoded) marshal ignored client a_consumer posted 0
      posted-Reads hello-AreBytes refl

visit_headers-lookup_example :
    lookup (text "X") (visit_headers ignored ((text "X", text "1") ∷ (text " X", text "2") ∷ []) [])
    ≡ some (text "2")
unfolding lookup ◌==◌
visit_headers-lookup_example =
    visit_headers-lookup ignored ((text "X", text "1") ∷ (text " X", text "2") ∷ []) [] (text "X")
      refl

processed : process (json (text "post") encoded) client (text "{…}") a_consumer 0 ≡ returns none 1
unfolding process send_as send lookup ◌==◌ decode_string
processed = refl

process-Delivered_example :
    (Dropped (json (text "post") encoded) client a_consumer (text "{…}") × ◌≡◌ {A = ℕ} 0 1)
    ⊎ Delivered (json (text "post") encoded) client a_consumer (text "{…}") 0 1
process-Delivered_example =
    process-Delivered (json (text "post") encoded) client a_consumer (text "{…}") 0 1 processed
