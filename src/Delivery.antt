-- ===== src/Delivery.antt =====
-- The way of a published message: `apiPublish` (api.go) makes the text that goes through RabbitMQ,
-- and `process` (message.go) sends it on to the consumer's URL. The libraries for JSON and HTTP
-- are parameters. Log lines are left out, but not what is evaluated for them.
pub mod Base64
pub mod Publishing
pub mod Arrives
pub mod Headers
pub mod Acknowledged
use wmq.Common.{
  ℕ, ◌+◌, Bool, true, false, not, ◌&&◌, ◌||◌, Option, none, some, List, [], ◌∷◌, ◌++◌, Text, text,
  ◌==◌, ltb, leb, nat_eq, length, if◌then◌else◌, Result, ok, err, is_some,
}
use wmq.Common.Dict.{Dict, insert}
use wmq.Registry.{Message, Consumer, Number, pos, negsuc, get_message}
use wmq.Registry.Backend.{Backend, State}
use wmq.Delivery.Base64.{decode_string}
use wmq.Registry.Operations.{publish}

-- The JSON library, with values `J`. `string_at` is `S(k).Data().(string)`, none when that panics;
-- `children_map` is `S(k).ChildrenMap()`, none when the value is no object, with the same for each
-- child. `print` is the text of an object with string fields.
pub record Json (J : Type 0) : Type 0 where
  pub parse : Text → Option J
  pub has_field : J → Text → Bool
  pub string_at : J → Text → Option Text
  pub children_map : J → Text → Option (Dict (Option Text))
  pub print : Dict Text → Text

-- A request to a consumer. `headers` are the calls of `Header.Set`, in order, and the time-out is
-- in milliseconds.
pub record Outgoing : Type 0 where
  pub uri : Text
  pub method : Text
  pub headers : List (Text × Text)
  pub body : Text
  pub timeout : Number

-- `client.DoTimeout`, with the status code of the answer.
pub record Client (W : Type 0) : Type 0 where
  pub do_timeout : Outgoing → W → (Option Text × ℕ) × W
  pub real_ip_header : Text
  pub user_agent : Text

-- How `process` ends. A panic of a goroutine ends the program.
pub data Processed (W : Type 0) : Type 0 where
  returns : Option Text → W → Processed W
  panics : Processed W

-- `strings.Contains(s, "?")`
abbrev pub has_question_mark : Text → Bool
has_question_mark [] = false
has_question_mark (c ∷ s) = nat_eq c b'?' || has_question_mark s

abbrev pub target : Text → Text → Text
target url [] = url
target url (c ∷ args) =
    if has_question_mark url then url ++ (text "&" ++ c ∷ args) else url ++ (text "?" ++ c ∷ args)

abbrev pub is_code : ℕ → Number → Bool
is_code code (pos n) = nat_eq code n
is_code code (negsuc n) = false

-- `headerMap[k] = child.Data().(string)` for each child.
abbrev pub all_strings : Dict (Option Text) → Option (List (Text × Text))
all_strings [] = some []
all_strings ((k, none) ∷ d) = none
all_strings ((k, some v) ∷ d) = elim (all_strings d) [ some hs ↦ some ((k, v) ∷ hs) | none ↦ none ]

abbrev pub header_map : Option (Dict (Option Text)) → Option (List (Text × Text))
header_map none = some []
header_map (some d) = all_strings d

module _ {W : Type 0} where
  -- A message that is dropped: `content[:20]` is evaluated for the log.
  unfoldable pub drop_message : Text → W → Processed W
  drop_message content w = if ltb (length content) 20 then panics else returns none w

  -- From `DoTimeout` on.
  unfoldable pub send : Client W → Consumer → Outgoing → W → Processed W
  send client c req w =
      let ((failure, code), w') = client.do_timeout req w in
      elim failure [
        | some e ↦ returns (some e) w'
        | none ↦
            if c.check_code && not (is_code code c.code)
            then returns (some (text "consume fail,httpCode 200 expected ")) w'
            else returns none w'
      ]

  -- The body and the method of the request.
  unfoldable pub send_as : Client W → Consumer → Text → Text → Outgoing → W → Processed W
  unfolding send
  send_as client c method body req w =
      if method == text "post"
      then if body == []
        then send client c (record req { method = text "POST" }) w
        else elim (decode_string body) [
          | some decoded ↦ send client c (record req { method = text "POST"; body = decoded }) w
          | none ↦ returns none w
        ]
      else if method == text "get"
      then send client c (record req { method = text "GET" }) w
      else returns (some (text "method [ " ++ (method ++ text " ] not supported"))) w

  unfoldable pub process : {J : Type 0} → Json J → Client W → Text → Consumer → W → Processed W
  unfolding drop_message send_as
  process json client content c w = elim (json.parse content) [
    | none ↦ drop_message content w
    | some j ↦
        if not (json.has_field j (text "body"))
          || (not (json.has_field j (text "header"))
              || (not (json.has_field j (text "ip"))
                  || (not (json.has_field j (text "method"))
                      || not (json.has_field j (text "args")))))
        then drop_message content w
        else elim (json.string_at j (text "body")) [
          | some body ↦ elim (json.string_at j (text "ip")) [
            | some ip ↦ elim (json.string_at j (text "args")) [
              | some args ↦ elim (json.string_at j (text "method")) [
                | some method ↦ elim (header_map (json.children_map j (text "header"))) [
                  | some headers ↦
                      send_as client c method body
                        (record {
                          uri = target c.url args;
                          method = [];
                          headers =
                              headers
                              ++ (client.real_ip_header, ip)
                                ∷ (text "User-Agent", client.user_agent)
                                ∷ [];
                          body = [];
                          timeout = c.timeout;
                        })
                        w
                  | none ↦ panics
                ]
                | none ↦ panics
              ]
              | none ↦ panics
            ]
            | none ↦ panics
          ]
          | none ↦ panics
        ]
  ]
