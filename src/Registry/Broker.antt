-- ===== src/Registry/Broker.antt =====
-- The operations of message.go on the calls of mq.go: what the record `Backend` asks for, filled.
use wmq.Common.{◌≡◌, refl, ap, ◌∙◌, Bool, none, List, [], ◌∷◌, Text, ok}
use wmq.Mq.{Amqp, Mq, Go}
use wmq.Mq.Calls.{
  queue_declare, exchange_declare, queue_bind_to_exchange, delete_queue, delete_exchange,
  publish_on_channel, with_channel,
}
use wmq.Mq.Keeps.{KeepsServing}
use wmq.Mq.Declares.{AlwaysChannel, queue_declare-declares, exchange_declare-declares}
use wmq.Registry.{Message, Consumer, get_consumer_key}
use wmq.Registry.Backend.{Backend, State}
use wmq.Registry.Operations.{init_messages}
use wmq.Registry.Declaring.{
  Step, declares_exchange, declares_queue, binds_queue, updates_worker, take_step, take_steps,
  steps, init_messages-take_steps,
}

-- The pools with the broker behind them, and the consumer manager.
pub record Outside (B C H G : Type 0) : Type 0 where
  pub mq : Mq B C H
  pub manager : G

module _ {B C H G : Type 0} where
  abbrev on_mq : {X : Type 0} → Go (Mq B C H) X → Outside B C H G → X × Outside B C H G
  on_mq f w = let (x, s) = f w.mq in (x, record w { mq = s })

  -- `answers` is what the manager does on a command.
  abbrev pub mq_backend :
      Amqp B C H → Text → (Text → Consumer → Message → G → Text × G) → Backend (Outside B C H G)
  mq_backend amqp prefix answers = record {
    exchange_declare = λ name kind durable. on_mq (exchange_declare amqp prefix name kind durable);
    queue_declare = λ name durable. on_mq (queue_declare amqp prefix name durable);
    queue_bind_to_exchange =
        λ queue exchange key. on_mq (queue_bind_to_exchange amqp prefix queue exchange key);
    delete_queue = λ name. on_mq (delete_queue amqp prefix name);
    delete_exchange = λ name. on_mq (delete_exchange amqp prefix name);
    publish_on_channel =
        λ exchange key body. on_mq (publish_on_channel amqp prefix exchange key body);
    answer = λ action c m w.
        let (text, g) = answers action c m w.manager in (text, record w { manager = g });
  }

-- The broker declares and binds whatever it is asked to.
pub record Willing {B C H : Type 0} (amqp : Amqp B C H) : Type 0 where
  pub declares_queues :
      (ch : H) (name : Text) (durable auto_delete : Bool) (b : B)
      → (amqp.queue_declare ch name durable auto_delete b).1 ≡ none
  pub declares_exchanges :
      (ch : H) (name kind : Text) (durable auto_delete : Bool) (b : B)
      → (amqp.exchange_declare ch name kind durable auto_delete b).0 ≡ none
  pub binds :
      (ch : H) (queue key exchange : Text) (b : B)
      → (amqp.queue_bind ch queue key exchange b).0 ≡ none

module _ {W : Type 0} (b : Backend W) where
  take_steps-ok :
      ((x : Step) (w : W) → (take_step b x w).0 ≡ none)
      → (xs : List Step) (s : State W) → (take_steps b xs s).0 ≡ ok tt
  take_steps-ok fine [] s = refl
  take_steps-ok fine (x ∷ xs) s = rw (fine x s.world) (take_steps-ok fine xs _)

module _ {B C H G : Type 0} (amqp : Amqp B C H) (prefix : Text)
    (answers : Text → Consumer → Message → G → Text × G) (channels : AlwaysChannel amqp)
    (willing : Willing amqp) where
  trivial : KeepsServing (λ b. Unit) amqp
  trivial = record {
    dial = λ b h. tt;
    open_channel = λ c b h. tt;
    close_connection = λ c b h. tt;
    close_channel = λ ch b h. tt;
    tx = λ ch b h. tt;
    tx_commit = λ ch b h. tt;
  }

  binds_fine :
      (queue exchange key : Text) (s : Mq B C H)
      → (queue_bind_to_exchange amqp prefix queue exchange key s).0 ≡ none
  unfolding queue_bind_to_exchange with_channel
  binds_fine queue exchange key s =
      rw (channels s, queue_bind_to_exchange, with_channel) (willing.binds _ _ _ _ _)

  pub step_fine :
      (x : Step) (w : Outside B C H G) → (take_step (mq_backend amqp prefix answers) x w).0 ≡ none
  step_fine (declares_exchange m) w =
      (exchange_declare-declares amqp prefix m.name m.durable channels trivial m.mode
        (record { accepted = λ ch b. (willing.declares_exchanges ch _ m.mode m.durable _ b, tt) })
        w.mq).0
  step_fine (declares_queue m c) w =
      (queue_declare-declares amqp prefix (get_consumer_key m c) m.durable channels trivial
        (record { accepted = λ ch b. (willing.declares_queues ch _ m.durable _ b, tt) }) w.mq).0
  step_fine (binds_queue m c) w = binds_fine (get_consumer_key m c) m.name c.route_key w.mq
  step_fine (updates_worker m c) w = refl

  -- When a channel can always be had and the broker declares and binds what it is asked to,
  -- `initMessages` over the calls of mq.go succeeds.
  pub init_messages-Willing :
      (s : State (Outside B C H G)) → (init_messages (mq_backend amqp prefix answers) s).0 ≡ ok tt
  init_messages-Willing s =
      ap (λ x. x.0) (init_messages-take_steps (mq_backend amqp prefix answers) s)
      ∙ take_steps-ok (mq_backend amqp prefix answers) step_fine (steps s.messages) s
