-- ===== src/Registry.antt =====
-- message.go: the messages and their consumers, and the operations that change them. All run under
-- `msgLock`, so each is one function on the state. Log lines are left out.
pub mod Backend
pub mod Operations
pub mod Lookups
pub mod Declaring
pub mod Names
pub mod Changes
pub mod Leads
pub mod Distinct
pub mod Reads
pub mod Finds
pub mod Keys
pub mod Broker
pub mod Directory
use wmq.Common.{
  ℕ, zero, suc, ◌+◌, Bool, true, false, Option, none, some, List, [], ◌∷◌, ◌++◌, Text, text, ◌==◌,
  if◌then◌else◌, Result, ok, err,
}

-- The `float64` fields, whole numbers here: what the API sets them to.
pub data Number : Type 0 where
  pos : ℕ → Number
  negsuc : ℕ → Number

-- `consumer`
pub record Consumer : Type 0 where
  pub id : Text
  pub url : Text
  pub route_key : Text
  pub timeout : Number
  pub code : Number
  pub check_code : Bool
  pub comment : Text

-- `message`
pub record Message : Type 0 where
  pub consumers : List Consumer
  pub durable : Bool
  pub is_need_token : Bool
  pub mode : Text
  pub name : Text
  pub token : Text
  pub comment : Text

unfoldable pub message_is_exists : Text → List Message → Bool
message_is_exists name [] = false
message_is_exists name (m ∷ ms) = if m.name == name then true else message_is_exists name ms

-- The inner loop of `consumerIsExists` and of `getConsumer`, from the index `k` on.
unfoldable pub find_consumer : Text → ℕ → List Consumer → Option (Consumer × ℕ)
find_consumer id k [] = none
find_consumer id k (c ∷ cs) = if c.id == id then some (c, k) else find_consumer id (k + 1) cs

-- `consumerIsExists`: it goes on with the next message of the name when one lacks the consumer.
unfoldable pub consumer_exists_from : Text → Text → ℕ → List Message → Bool × ℕ × ℕ
consumer_exists_from exchange_name consumer_name k [] = (false, 0, 0)
consumer_exists_from exchange_name consumer_name k (m ∷ ms) =
    let rest = consumer_exists_from exchange_name consumer_name (k + 1) ms in
    if m.name == exchange_name
    then elim (find_consumer consumer_name 0 m.consumers) [
      | some (c, i) ↦ (true, k, i)
      | none ↦ rest
    ]
    else rest

unfoldable pub consumer_is_exists : Text → Text → List Message → Bool × ℕ × ℕ
unfolding consumer_exists_from
consumer_is_exists exchange_name consumer_name = consumer_exists_from exchange_name consumer_name 0

-- `getMessage`, from the index `k` on.
unfoldable pub get_message_from : Text → ℕ → List Message → Result (Message × ℕ)
get_message_from name k [] = err (text "message not found")
get_message_from name k (m ∷ ms) =
    if m.name == name then ok (m, k) else get_message_from name (k + 1) ms

unfoldable pub get_message : Text → List Message → Result (Message × ℕ)
unfolding get_message_from
get_message name = get_message_from name 0

-- `getConsumer`: the consumer, the message's index and the consumer's.
unfoldable pub get_consumer : Text → Text → List Message → Result (Consumer × ℕ × ℕ)
get_consumer message_name consumer_id ms = elim (get_message message_name ms) [
  | ok (m, i) ↦ elim (find_consumer consumer_id 0 m.consumers) [
    | some (c, k) ↦ ok (c, i, k)
    | none ↦ err (text "consumer not found")
  ]
  | err e ↦ err e
]

-- `getConsumerKey`
abbrev pub get_consumer_key : Message → Consumer → Text
get_consumer_key m c = m.name ++ (text "-" ++ c.id)
