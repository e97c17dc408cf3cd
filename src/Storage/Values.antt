-- ===== src/Storage/Values.antt =====
-- message.go: what `encoding/json` makes of the messages, and messages of it, on trees.
use wmq.Common.{Bool, false, List, [], ◌∷◌, Text, text, to_lower, ◌==◌, if◌then◌else◌}
use wmq.Registry.{Message, Consumer, Number, pos}

-- Go's `interface{}` as `json.Unmarshal` fills it. The fields of an object stand in the order of their
-- keys, in which a map is written. Fractions and exponents of numbers are left out.
mutual
  pub data Value : Type 0 where
    null : Value
    bool : Bool → Value
    number : Number → Value
    string : Text → Value
    array : Values → Value
    object : Fields → Value

  pub data Values : Type 0 where
    nil : Values
    cons : Value → Values → Values

  pub data Fields : Type 0 where
    end : Fields
    field : Text → Value → Fields → Fields

-- Which of the empty slices are nil: Go writes `null` for these and `[]` for the others, and the lists
-- of the model are the same.
pub record NilSlices : Type 0 where
  pub messages : Bool
  pub consumers : Message → Bool

abbrev pub empty_slice : Bool → Value
empty_slice is_nil = if is_nil then null else array nil

-- `gabs.ParseJSON` of what `json.Marshal` makes of a consumer, of a message and of the messages.
unfoldable pub consumer_value : Consumer → Value
consumer_value c = object (
    field (text "CheckCode") (bool c.check_code) (
      field (text "Code") (number c.code) (
        field (text "Comment") (string c.comment) (
          field (text "ID") (string c.id) (
            field (text "RouteKey") (string c.route_key) (
              field (text "Timeout") (number c.timeout)
                (field (text "URL") (string c.url) end)))))))

abbrev pub consumer_values : List Consumer → Values
consumer_values [] = nil
consumer_values (c ∷ cs) = cons (consumer_value c) (consumer_values cs)

abbrev pub consumers_value : Bool → List Consumer → Value
consumers_value is_nil [] = empty_slice is_nil
consumers_value is_nil (c ∷ cs) = array (consumer_values (c ∷ cs))

unfoldable pub message_value : NilSlices → Message → Value
message_value nils m = object (
    field (text "Comment") (string m.comment) (
      field (text "Consumers") (consumers_value (nils.consumers m) m.consumers) (
        field (text "Durable") (bool m.durable) (
          field (text "IsNeedToken") (bool m.is_need_token) (
            field (text "Mode") (string m.mode)
              (field (text "Name") (string m.name) (field (text "Token") (string m.token) end)))))))

abbrev pub message_values : NilSlices → List Message → Values
message_values nils [] = nil
message_values nils (m ∷ ms) = cons (message_value nils m) (message_values nils ms)

abbrev pub messages_value : NilSlices → List Message → Value
messages_value nils [] = empty_slice nils.messages
messages_value nils (m ∷ ms) = array (message_values nils (m ∷ ms))

-- `json.Unmarshal` into a field of a struct: a value of another type leaves it as it is.
abbrev pub into_bool : Value → Bool → Bool
into_bool (bool b) old = b
into_bool v old = old

abbrev pub into_number : Value → Number → Number
into_number (number n) old = n
into_number v old = old

abbrev pub into_string : Value → Text → Text
into_string (string s) old = s
into_string v old = old

-- Keys of an object name the fields of the struct in upper or lower case.
abbrev pub names : Text → Text → Bool
names key name = to_lower key == to_lower name

unfoldable pub set_consumer_field : Text → Value → Consumer → Consumer
set_consumer_field key v c =
    if names key (text "ID")
    then record c { id = into_string v c.id }
    else if names key (text "URL")
    then record c { url = into_string v c.url }
    else if names key (text "RouteKey")
    then record c { route_key = into_string v c.route_key }
    else if names key (text "Timeout")
    then record c { timeout = into_number v c.timeout }
    else if names key (text "Code")
    then record c { code = into_number v c.code }
    else if names key (text "CheckCode")
    then record c { check_code = into_bool v c.check_code }
    else if names key (text "Comment")
    then record c { comment = into_string v c.comment }
    else c

unfoldable pub set_consumer_fields : Fields → Consumer → Consumer
unfolding set_consumer_field
set_consumer_fields end c = c
set_consumer_fields (field key v fs) c = set_consumer_fields fs (set_consumer_field key v c)

-- `consumer{}` and `message{}`
abbrev pub zero_consumer : Consumer
zero_consumer = record {
  id = [];
  url = [];
  route_key = [];
  timeout = pos 0;
  code = pos 0;
  check_code = false;
  comment = [];
}

abbrev pub zero_message : Message
zero_message = record {
  consumers = [];
  durable = false;
  is_need_token = false;
  mode = [];
  name = [];
  token = [];
  comment = [];
}

abbrev pub into_consumer : Value → Consumer
into_consumer (object fs) = set_consumer_fields fs zero_consumer
into_consumer v = zero_consumer

abbrev pub into_each_consumer : Values → List Consumer
into_each_consumer nil = []
into_each_consumer (cons v vs) = into_consumer v ∷ into_each_consumer vs

abbrev pub into_consumers : Value → List Consumer → List Consumer
into_consumers null old = []
into_consumers (array vs) old = into_each_consumer vs
into_consumers v old = old

unfoldable pub set_message_field : Text → Value → Message → Message
set_message_field key v m =
    if names key (text "Consumers")
    then record m { consumers = into_consumers v m.consumers }
    else if names key (text "Durable")
    then record m { durable = into_bool v m.durable }
    else if names key (text "IsNeedToken")
    then record m { is_need_token = into_bool v m.is_need_token }
    else if names key (text "Mode")
    then record m { mode = into_string v m.mode }
    else if names key (text "Name")
    then record m { name = into_string v m.name }
    else if names key (text "Token")
    then record m { token = into_string v m.token }
    else if names key (text "Comment")
    then record m { comment = into_string v m.comment }
    else m

unfoldable pub set_message_fields : Fields → Message → Message
unfolding set_message_field
set_message_fields end m = m
set_message_fields (field key v fs) m = set_message_fields fs (set_message_field key v m)

-- `json.Unmarshal(m.Bytes(), &msg)`, its error dropped. `Bytes` of null is `{}`.
abbrev pub into_message : Value → Message
into_message (object fs) = set_message_fields fs zero_message
into_message v = zero_message

-- `Children`, of an array or of an object, and none with an error. A Go map gives the values of an object in any
-- order; here they are taken in that of the fields.
abbrev pub each_message : Values → List Message
each_message nil = []
each_message (cons v vs) = into_message v ∷ each_message vs

abbrev pub each_field_message : Fields → List Message
each_field_message end = []
each_field_message (field key v fs) = into_message v ∷ each_field_message fs

abbrev pub children_messages : Value → List Message
children_messages (array vs) = each_message vs
children_messages (object fs) = each_field_message fs
children_messages v = []
