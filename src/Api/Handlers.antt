-- ===== src/Api/Handlers.antt =====
-- The handlers of api.go on the messages and the consumers, with their guards in order, and the
-- check of the token and the answer around them. The log routes are in Api/Logs, and the routes and the
-- time-out of a request in Services.
use wmq.Common.{
  Bool, true, false, not, ◌&&◌, ◌||◌, List, [], ◌∷◌, Text, text, ◌==◌, Result, ok, err,
  if◌then◌else◌,
}
use wmq.Registry.{Message, Consumer, get_message, get_consumer}
use wmq.Registry.Backend.{State, M, pure, fail, ◌>>=◌, ◌>>◌, call, gets}
use wmq.Registry.Operations.{
  add_message, update_message, delete_message, add_consumer, update_consumer, delete_consumer,
  status_consumer, status_message, restart, reload,
}
use wmq.Api.{
  Request, Service, Content, null, string, all_messages, statuses, one_status, Body, Response, peek,
  check_request, token_error, in_callback, plain,
}
use wmq.Api.Numbers.{matches_code, matches_timeout, atoi}

-- The routes of `serveAPI`.
pub data Route : Type 0 where
  message_add message_update message_delete message_status : Route
  consumer_add consumer_update consumer_delete consumer_status : Route
  reload_all restart_all config : Route

abbrev pub is_ok : {A : Type 0} → Result A → Bool
is_ok (ok a) = true
is_ok (err e) = false

-- `errors.New(e)` in place of the error that a call returned.
abbrev or_error : {A : Type 0} → Text → Result A → Result A
or_error e (ok a) = ok a
or_error e (err e') = err e

abbrev pub known_mode : Text → Bool
known_mode mode = mode == text "fanout" || (mode == text "topic" || mode == text "direct")

-- The message that a request describes.
abbrev pub message_of : Request → Message
message_of r = record {
  consumers = [];
  durable = peek r "Durable" == text "1";
  is_need_token = peek r "IsNeedToken" == text "1";
  mode = peek r "Mode";
  name = peek r "Name";
  token = peek r "Token";
  comment = peek r "Comment";
}

abbrev pub lacks_message_args : Request → Bool
lacks_message_args r = peek r "Name" == [] || (peek r "Durable" == [] || peek r "IsNeedToken" == [])

abbrev lacks_consumer_args : Request → Bool
lacks_consumer_args r =
    peek r "Name" == []
    || (peek r "Code" == []
        || (peek r "CheckCode" == [] || (peek r "Timeout" == [] || peek r "URL" == [])))

module _ {W : Type 0} where
  -- `if test { response(ctx, "", errors.New(e)); return }`
  abbrev pub refuse_if : Bool → Text → M W (Unit {0})
  refuse_if true e = fail e
  refuse_if false e = pure tt

module _ {W : Type 0} (service : Service W) where
  -- The consumer that a request describes. `CheckCode` is read and then set to true.
  abbrev pub consumer_of : Request → Text → Consumer
  consumer_of r id = record {
    id = id;
    url = peek r "URL";
    route_key = peek r "RouteKey";
    timeout = service.to_float64 (atoi (peek r "Timeout"));
    code = service.to_float64 (atoi (peek r "Code"));
    check_code = true;
    comment = peek r "Comment";
  }

  -- `writeMessagesToFile(messages, …)`
  abbrev pub save : M W (Unit {0})
  save s = call (service.write_messages_to_file s.messages) s

  -- `uuid.NewV4()`
  abbrev pub draw_id : M W Text
  draw_id s = let (id, w) = service.new_v4 s.world in (ok id, record s { world = w })

  -- The part of `apiMessageAdd` from the test on whether the message exists on.
  unfoldable pub add_unless : Bool → Request → M W Content
  add_unless exists r = do
    refuse_if exists (text "message exists")
    refuse_if (peek r "IsNeedToken" == text "1" && peek r "Token" == []) (text "message exists")
    refuse_if (not (known_mode (peek r "Mode"))) (text "args required.10002")
    add_message service.backend (message_of r)
    save
    pure null

  unfoldable pub api_message_add : Request → M W Content
  unfolding add_unless
  api_message_add r = do
    refuse_if (lacks_message_args r) (text "args required.10001")
    exists ← (λ s. (ok (is_ok (get_message (peek r "Name") s.messages)), s))
    add_unless exists r

  unfoldable pub api_message_update : Request → M W Content
  api_message_update r = do
    refuse_if (lacks_message_args r) (text "args required.10003")
    gets (λ ms. or_error (text "message not found") (get_message (peek r "Name") ms))
    refuse_if (peek r "IsNeedToken" == text "1" && peek r "Token" == [])
        (text "args required.10013")
    refuse_if (not (known_mode (peek r "Mode"))) (text "args required.10004")
    update_message service.backend (message_of r)
    save
    pure null

  unfoldable pub api_message_delete : Request → M W Content
  api_message_delete r = do
    (msg, i) ← gets (λ ms. or_error (text "message not found") (get_message (peek r "Name") ms))
    delete_message service.backend msg
    save
    pure (string [])

  unfoldable pub api_message_status : Request → M W Content
  api_message_status r = do
    all ← status_message service.backend (peek r "Name")
    pure (statuses all)

  unfoldable pub api_consumer_add : Request → M W Content
  api_consumer_add r = do
    id ← draw_id
    refuse_if (lacks_consumer_args r) (text "args required.10005")
    (msg, i) ← gets (get_message (peek r "Name"))
    refuse_if (not (matches_code (peek r "Code"))) (text "args required.10006")
    refuse_if (not (matches_timeout (peek r "Timeout"))) (text "args required.10007")
    add_consumer service.backend msg (consumer_of r id)
    save
    pure null

  unfoldable pub api_consumer_update : Request → M W Content
  api_consumer_update r = do
    refuse_if (lacks_consumer_args r) (text "args required.10008")
    (msg, i) ← gets (λ ms. or_error (text "message not found") (get_message (peek r "Name") ms))
    (c, at, k) ←
        gets (λ ms.
          or_error (text "consumer not found") (get_consumer (peek r "Name") (peek r "ID") ms))
    refuse_if (not (matches_code (peek r "Code"))) (text "args required.10009")
    refuse_if (not (matches_timeout (peek r "Timeout"))) (text "args required.10010")
    update_consumer service.backend msg (consumer_of r c.id)
    save
    pure null

  unfoldable pub api_consumer_delete : Request → M W Content
  api_consumer_delete r = do
    (msg, i) ← gets (λ ms. or_error (text "message not found") (get_message (peek r "Name") ms))
    (c, at, k) ←
        gets (λ ms.
          or_error (text "consumer not found") (get_consumer (peek r "Name") (peek r "ID") ms))
    delete_consumer service.backend msg c
    save
    pure (string [])

  unfoldable pub api_consumer_status : Request → M W Content
  api_consumer_status r = do
    status ← status_consumer service.backend (peek r "Name") (peek r "ID")
    pure (one_status status)

  unfoldable pub api_reload : M W Content
  api_reload = do reload service.backend; pure (string [])

  unfoldable pub api_restart : M W Content
  api_restart = do restart service.backend; pure (string [])

  abbrev pub api_config : M W Content
  api_config s = (ok (all_messages s.messages), s)

  -- The handler of each route, behind `checkRequest`.
  unfoldable pub handle : Route → Request → M W Content
  handle message_add r = api_message_add r
  handle message_update r = api_message_update r
  handle message_delete r = api_message_delete r
  handle message_status r = api_message_status r
  handle consumer_add r = api_consumer_add r
  handle consumer_update r = api_consumer_update r
  handle consumer_delete r = api_consumer_delete r
  handle consumer_status r = api_consumer_status r
  handle reload_all r = api_reload
  handle restart_all r = api_restart
  handle config r = api_config

  -- What is written for a result.
  abbrev written : Route → Text → Result Content → Body
  written message_status callback (ok content) = plain content
  written consumer_status callback (ok content) = plain content
  written route callback r = in_callback callback r

  unfoldable pub serve : Route → Request → State W → Response × State W
  unfolding handle check_request
  serve route r s =
      let (result, s') = handle route r s in
      if check_request service.api_token r
      then (record { status = 200; body = written route (peek r "callback") result }, s')
      else (record { status = 500; body = token_error }, s)

  -- Requests one after the other.
  unfoldable pub serve_all : List (Route × Request) → State W → List Response × State W
  unfolding serve
  serve_all [] s = ([], s)
  serve_all ((route, r) ∷ rs) s =
      let (response, s₁) = serve route r s in
      let (rest, s₂) = serve_all rs s₁ in (response ∷ rest, s₂)
