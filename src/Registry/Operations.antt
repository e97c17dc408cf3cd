-- ===== src/Registry/Operations.antt =====
-- The operations of message.go on the messages.
use wmq.Common.{
  Bool, Option, ℕ, not, none, some, List, [], ◌∷◌, ◌++◌, Text, text, ◌==◌, ◌&&◌, if◌then◌else◌, ok,
  err, set, get_elem?, erase_idx,
}
use wmq.Mq.{Queue}
use wmq.Registry.{Message, Consumer, get_message, get_consumer, get_consumer_key}
use wmq.Registry.Backend.{Backend, State, M, pure, fail, ◌>>=◌, ◌>>◌, call, ignore, gets, modify}

-- `messages[i].Consumers = f(messages[i].Consumers)`
abbrev pub at_consumers : ℕ → (List Consumer → List Consumer) → List Message → List Message
at_consumers i f ms = elim (get_elem? ms i) [
  | some m ↦ set ms i (record m { consumers = f m.consumers })
  | none ↦ ms
]

-- The object that `statusConsumer` builds.
pub record ConsumerStatus : Type 0 where
  pub count : ℕ
  pub id : Text
  pub msg_name : Text
  pub last_time : Text

module _ {W : Type 0} (b : Backend W) where
  -- `notifyConsumerManager`
  unfoldable pub notify_consumer_manager : Text → Consumer → Message → M W Text
  notify_consumer_manager action c m s =
      if not (action == text "update")
        && (not (action == text "delete") && not (action == text "status"))
      then (err (text "action must be [update|delete]"), s)
      else let (answer, w) = b.answer action c m s.world in (ok answer, record s { world = w })

  unfoldable pub update_consumer_worker : Consumer → Message → M W Text
  unfolding notify_consumer_manager
  update_consumer_worker = notify_consumer_manager (text "update")

  unfoldable pub stop_consumer_worker : Consumer → Message → M W Text
  unfolding notify_consumer_manager
  stop_consumer_worker = notify_consumer_manager (text "delete")

  unfoldable pub status_consumer_worker : Consumer → Message → M W Text
  unfolding notify_consumer_manager
  status_consumer_worker = notify_consumer_manager (text "status")

  -- The inner loop of `initMessages`.
  unfoldable pub init_consumers : Message → List Consumer → M W (Unit {0})
  unfolding update_consumer_worker
  init_consumers m [] = pure tt
  init_consumers m (c ∷ cs) = do
    call (λ w. let ((queue, e), w') = b.queue_declare (get_consumer_key m c) m.durable w in (e, w'))
    call (b.queue_bind_to_exchange (get_consumer_key m c) m.name c.route_key)
    update_consumer_worker c m
    init_consumers m cs

  unfoldable pub init_each : List Message → M W (Unit {0})
  unfolding init_consumers
  init_each [] = pure tt
  init_each (m ∷ ms) = do
    call (b.exchange_declare m.name m.mode m.durable)
    init_consumers m m.consumers
    init_each ms

  unfoldable pub init_messages : M W (Unit {0})
  unfolding init_each
  init_messages s = init_each s.messages s

  unfoldable pub add_message : Message → M W (Unit {0})
  add_message m = do modify (λ ms. ms ++ m ∷ []); ignore init_messages

  -- `for _, c := range cs { stopConsumerWorker(c, m) }`
  unfoldable pub stop_each : Message → List Consumer → M W (Unit {0})
  unfolding stop_consumer_worker
  stop_each m [] = pure tt
  stop_each m (c ∷ cs) = do stop_consumer_worker c m; stop_each m cs

  -- `messages[i].Consumers` is the list of the message found.
  unfoldable pub update_message : Message → M W (Unit {0})
  unfolding stop_each
  update_message m = do
    (old, i) ← gets (get_message m.name)
    let m' = record m { consumers = old.consumers }
    modify (λ ms. set ms i m')
    stop_each m' m'.consumers
    ignore init_messages

  -- The loop of `deleteMessage`: `m` is the argument, `msg` the message found.
  unfoldable pub delete_each : Message → Message → List Consumer → M W (Unit {0})
  unfolding stop_consumer_worker
  delete_each m msg [] = pure tt
  delete_each m msg (c ∷ cs) = do
    stop_consumer_worker c m
    call (b.delete_queue (get_consumer_key msg c))
    delete_each m msg cs

  unfoldable pub delete_message : Message → M W (Unit {0})
  unfolding delete_each
  delete_message m = do
    (msg, i) ← gets (get_message m.name)
    delete_each m msg msg.consumers
    call (b.delete_exchange msg.name)
    modify (λ ms. erase_idx ms i)
    ignore init_messages

  unfoldable pub add_consumer : Message → Consumer → M W (Unit {0})
  add_consumer msg c₀ = do
    (old, i) ← gets (get_message msg.name)
    modify (at_consumers i (λ cs. cs ++ c₀ ∷ []))
    ignore init_messages

  unfoldable pub update_consumer : Message → Consumer → M W (Unit {0})
  unfolding update_consumer_worker
  update_consumer msg c₀ = do
    (c, i, k) ← gets (get_consumer msg.name c₀.id)
    modify (at_consumers i (λ cs. set cs k c₀))
    update_consumer_worker c₀ msg
    pure tt

  unfoldable pub delete_consumer : Message → Consumer → M W (Unit {0})
  unfolding stop_consumer_worker
  delete_consumer msg c₀ = do
    (c, i, k) ← gets (get_consumer msg.name c₀.id)
    modify (at_consumers i (λ cs. erase_idx cs k))
    stop_consumer_worker c₀ msg
    init_messages
    call (b.delete_queue (get_consumer_key msg c₀))

  unfoldable pub publish : Text → Text → Text → Text → M W (Unit {0})
  publish body exchange_name route_key token = do
    (msg, i) ← gets (get_message exchange_name)
    if msg.is_need_token && not (token == msg.token)
        then fail (text "token error")
        else call (b.publish_on_channel exchange_name route_key body)

  -- `stopAllConsumer`
  unfoldable pub stop_all : List Message → M W (Unit {0})
  unfolding stop_each
  stop_all [] = pure tt
  stop_all (m ∷ ms) = do stop_each m m.consumers; stop_all ms

  unfoldable pub restart : M W (Unit {0})
  unfolding stop_all
  restart = do (λ s. stop_all s.messages s); ignore init_messages

  unfoldable pub reload : M W (Unit {0})
  reload = ignore init_messages

  -- `queue, _, err = queueDeclare(key, durable)` and the return on an error.
  unfoldable pub queue_status : Text → Bool → M W Queue
  queue_status key durable s =
      let ((q, e), w) = b.queue_declare key durable s.world in
      (elim e [ none ↦ ok q | some e' ↦ err e' ], record s { world = w })

  -- `statusConsumer`. `messages[i]` is the message that the lookup found.
  unfoldable pub status_consumer : Text → Text → M W ConsumerStatus
  unfolding status_consumer_worker queue_status
  status_consumer message_name consumer_id = do
    (c, i, k) ← gets (get_consumer message_name consumer_id)
    (m, j) ← gets (get_message message_name)
    q ← queue_status (get_consumer_key m c) m.durable
    lasttime ← status_consumer_worker c m
    pure (record {
      count = q.messages;
      id = consumer_id;
      msg_name = message_name;
      last_time = lasttime;
    })

  -- The loop of `statusMessage`, which keeps what `statusConsumer` returns besides the error: nil
  -- on one.
  unfoldable pub status_each :
      Message → List Consumer → State W → List (Option ConsumerStatus) × State W
  unfolding status_consumer
  status_each m [] s = ([], s)
  status_each m (c ∷ cs) s =
      let (r, s₁) = status_consumer m.name c.id s in
      let (rest, s₂) = status_each m cs s₁ in
      (elim r [ ok status ↦ some status | err e ↦ none ] ∷ rest, s₂)

  unfoldable pub status_message : Text → M W (List (Option ConsumerStatus))
  unfolding status_each
  status_message message_name = do
    (m, i) ← gets (get_message message_name)
    (λ s. let (all, s') = status_each m m.consumers s in (ok all, s'))
