-- ===== src/Storage/Decoding.antt =====
-- The values that `writeMessagesToFile` of message.go writes are read back by `parseMessages`.
use wmq.Common.{◌≡◌, refl, ap, ap₂, Bool, true, false, List, [], ◌∷◌, ◌==◌}
use wmq.Registry.{Message, Consumer}
use wmq.Storage.Values.{
  NilSlices, consumer_value, consumer_values, consumers_value, message_value, message_values,
  messages_value, set_consumer_field, set_consumer_fields, set_message_field, set_message_fields,
  into_consumer, into_each_consumer, into_consumers, into_message, each_message, children_messages,
  Value, null, empty_slice, object, end,
}

into_consumer-value : (c : Consumer) → into_consumer (consumer_value c) ≡ c
unfolding consumer_value set_consumer_field set_consumer_fields ◌==◌
into_consumer-value c = refl

into_each_consumer-values : (cs : List Consumer) → into_each_consumer (consumer_values cs) ≡ cs
into_each_consumer-values [] = refl
into_each_consumer-values (c ∷ cs) =
    ap₂ (λ x xs. x ∷ xs) (into_consumer-value c) (into_each_consumer-values cs)

into_consumers-value :
    (is_nil : Bool) (cs : List Consumer) → into_consumers (consumers_value is_nil cs) [] ≡ cs
into_consumers-value true [] = refl
into_consumers-value false [] = refl
into_consumers-value is_nil (c ∷ cs) = into_each_consumer-values (c ∷ cs)

into_message-value : (nils : NilSlices) (m : Message) → into_message (message_value nils m) ≡ m
unfolding message_value set_message_field set_message_fields ◌==◌
into_message-value nils m =
    ap (λ cs. record m { consumers = cs }) (into_consumers-value (nils.consumers m) m.consumers)

each_message-values :
    (nils : NilSlices) (ms : List Message) → each_message (message_values nils ms) ≡ ms
each_message-values nils [] = refl
each_message-values nils (m ∷ ms) =
    ap₂ (λ x xs. x ∷ xs) (into_message-value nils m) (each_message-values nils ms)

-- `StringIndent` writes `{}` for null.
abbrev pub written : Value → Value
written null = object end
written v = v

pub children_messages-written :
    (nils : NilSlices) (ms : List Message)
    → children_messages (written (messages_value nils ms)) ≡ ms
children_messages-written nils [] = empty nils.messages
  where
    empty : (is_nil : Bool) → children_messages (written (empty_slice is_nil)) ≡ []
    empty true = refl
    empty false = refl
children_messages-written nils (m ∷ ms) = each_message-values nils (m ∷ ms)
