-- ===== src/Tests/Apis.antt =====
-- Runs of the management service (api.go).
use wmq.Common.{◌++◌, false, ℕ, suc, ◌≡◌, refl, none, [], ◌∷◌, text, ◌==◌, ok}
use wmq.Common.Dict.{lookup}
use wmq.Registry.{get_message, get_message_from}
use wmq.Registry.Operations.{add_message}
use wmq.Api.{Request, Service, null, peek, in_callback, check_request}
use wmq.Api.Handlers.{message_add, handle, api_message_add, add_unless, message_of, is_ok, serve}
use wmq.Api.Races.{IsGood, BothMayAdd, add_message-race}
use wmq.Api.Saves.{IsSaved, serve-IsSaved}
use wmq.Tests.Registries.{counting, two_messages, orders, bills}

abbrev pub service : Service ℕ
service = record {
  backend = counting;
  write_messages_to_file = λ ms n. (none, suc n);
  new_v4 = λ n. (text "id", suc n);
  to_float64 = λ x. x;
  api_token = text "secret";
}

abbrev pub add_request : Request
add_request = record {
  args =
      (text "api-token", text "secret")
      ∷ (text "Name", text "new")
      ∷ (text "Durable", text "1")
      ∷ (text "IsNeedToken", text "0")
      ∷ (text "Mode", text "topic")
      ∷ [];
}

abbrev delete_request : Request
delete_request = record {
  args = (text "api-token", text "secret") ∷ (text "Name", text "orders") ∷ [];
}

added : (serve service message_add add_request two_messages).0.body ≡ in_callback [] (ok null)
unfolding serve handle check_request api_message_add add_unless get_message get_message_from lookup
    add_message ◌==◌
added = refl

serve-IsSaved_example : IsSaved service (serve service message_add add_request two_messages).1
serve-IsSaved_example =
    serve-IsSaved service message_add add_request two_messages [] null refl added

-- Another message of that name.
abbrev other_request : Request
other_request = record {
  args =
      (text "api-token", text "secret")
      ∷ (text "Name", text "new")
      ∷ (text "Durable", text "0")
      ∷ (text "IsNeedToken", text "0")
      ∷ (text "Mode", text "fanout")
      ∷ [];
}

add_request-IsGood : IsGood service add_request
unfolding lookup ◌==◌
add_request-IsGood = (refl, refl, refl)

other_request-IsGood : IsGood service other_request
unfolding lookup ◌==◌
other_request-IsGood = (refl, refl, refl)

new_is_free : is_ok (get_message (peek add_request "Name") two_messages.messages) ≡ false
unfolding lookup ◌==◌ get_message get_message_from
new_is_free = refl

same_name : peek add_request "Name" ≡ peek other_request "Name"
unfolding lookup ◌==◌
same_name = refl

add_message-race_example :
    BothMayAdd service add_request other_request two_messages
    × ((api_message_add service other_request
          (api_message_add service add_request two_messages).1).1.messages
        ≡ (orders ∷ bills ∷ []) ++ message_of add_request ∷ [])
add_message-race_example =
    add_message-race service add_request other_request two_messages add_request-IsGood
      other_request-IsGood same_name new_is_free
