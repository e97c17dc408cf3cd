-- ===== src/Tests/Registries.antt =====
-- Runs of the operations on the messages (message.go), with a broker and a manager that count the
-- calls and always succeed.
use wmq.Common.{List, ℕ, suc, ◌≡◌, refl, true, false, none, [], ◌∷◌, text, ok, ◌==◌}
use wmq.Registry.{Message, Consumer, pos, get_message, get_message_from, message_is_exists}
use wmq.Registry.Backend.{Backend, State}
use wmq.Registry.Operations.{
  delete_each, stop_consumer_worker, notify_consumer_manager, init_messages, delete_message,
}
use wmq.Registry.Directory.{
  Operation, adds, updates, deletes, adds_consumer, updates_consumer, deletes_consumer, apply_all,
  directory, SpecifiedAll,
}
use wmq.Registry.Directory.Refines.{apply_all-Specified}
use wmq.Registry.Lookups.{DistinctNames}
use wmq.Registry.Declaring.{steps, take_steps, init_messages-take_steps}

abbrev pub counting : Backend ℕ
counting = record {
  exchange_declare = λ name kind durable n. (none, suc n);
  queue_declare = λ name durable n. ((record { messages = 0 }, none), suc n);
  queue_bind_to_exchange = λ queue exchange key n. (none, suc n);
  delete_queue = λ name n. (none, suc n);
  delete_exchange = λ name n. (none, suc n);
  publish_on_channel = λ exchange key body n. (none, suc n);
  answer = λ action c m n. (text "ok", suc n);
}

abbrev pub a_consumer : Consumer
a_consumer = record {
  id = text "c";
  url = text "http://localhost/";
  route_key = [];
  timeout = pos 5000;
  code = pos 200;
  check_code = true;
  comment = [];
}

abbrev pub orders : Message
orders = record {
  consumers = a_consumer ∷ [];
  durable = true;
  is_need_token = true;
  mode = text "fanout";
  name = text "orders";
  token = text "t";
  comment = [];
}

abbrev pub bills : Message
bills = record orders { name = text "bills"; consumers = [] }

abbrev pub two_messages : State ℕ
two_messages = record { messages = orders ∷ bills ∷ []; world = 0 }

pub two_messages-DistinctNames : DistinctNames (orders ∷ bills ∷ [])
unfolding message_is_exists ◌==◌
two_messages-DistinctNames = (refl, (refl, tt))

init_messages-take_steps_example :
    init_messages counting two_messages
    ≡ take_steps counting (steps (orders ∷ bills ∷ [])) two_messages
init_messages-take_steps_example = init_messages-take_steps counting two_messages

abbrev topic_orders : Message
topic_orders = record orders { mode = text "topic"; consumers = [] }

abbrev new_message : Message
new_message = record bills { name = text "new" }

new_message-absent : message_is_exists (text "new") (orders ∷ bills ∷ []) ≡ false
unfolding message_is_exists ◌==◌
new_message-absent = refl

orders_found : get_message (text "orders") (orders ∷ bills ∷ []) ≡ ok (orders, 0)
unfolding get_message get_message_from ◌==◌
orders_found = refl

-- A whole run of `deleteMessage`: the consumer's worker and queue, and the exchange, are asked for.
orders-deleted : (delete_message counting orders two_messages).0 ≡ ok tt
unfolding delete_message delete_each stop_consumer_worker notify_consumer_manager get_message
    get_message_from ◌==◌
orders-deleted = refl

abbrev free_orders : Message
free_orders = record orders { is_need_token = false }

bills_found : get_message (text "bills") (orders ∷ bills ∷ []) ≡ ok (bills, 1)
unfolding get_message get_message_from ◌==◌
bills_found = refl

-- The message is there already, and so it is updated, gets a consumer, loses another and is deleted.
abbrev changes : List Operation
changes =
    adds orders
    ∷ updates topic_orders
    ∷ adds_consumer orders (record a_consumer { id = text "d" })
    ∷ deletes_consumer orders a_consumer
    ∷ updates_consumer bills a_consumer
    ∷ deletes orders
    ∷ []

apply_all-Specified_example :
    SpecifiedAll changes
      (directory (orders ∷ bills ∷ []))
      (apply_all counting changes two_messages).0
      (directory (apply_all counting changes two_messages).1.messages)
apply_all-Specified_example =
    apply_all-Specified counting changes two_messages two_messages-DistinctNames
