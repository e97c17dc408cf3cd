-- ===== src/Registry/Declaring.antt =====
-- `initMessages` (message.go) against the list of the steps that it is to take.
use wmq.Common.{
  ◌==◌, ◌≡◌, refl, Option, none, List, [], ◌∷◌, ◌++◌, Text, text, ok, Option-cases, inl, inr,
}
use wmq.Registry.{Message, Consumer, get_consumer_key}
use wmq.Registry.Backend.{Backend, State, M, pure, ◌>>=◌, ◌>>◌, >>-eq, call}
use wmq.Registry.Operations.{
  stop_consumer_worker, update_consumer_worker, init_consumers, init_each, init_messages,
}

-- A step towards the broker or the consumer manager.
pub data Step : Type 0 where
  declares_exchange : Message → Step
  declares_queue binds_queue updates_worker : Message → Consumer → Step

-- For each message its exchange, and then for each consumer its queue, the binding and the worker.
abbrev pub consumer_steps : Message → List Consumer → List Step
consumer_steps m [] = []
consumer_steps m (c ∷ cs) =
    declares_queue m c ∷ binds_queue m c ∷ updates_worker m c ∷ consumer_steps m cs

abbrev pub steps : List Message → List Step
steps [] = []
steps (m ∷ ms) = declares_exchange m ∷ (consumer_steps m m.consumers ++ steps ms)

module _ {W : Type 0} (b : Backend W) where
  abbrev pub take_step : Step → W → Option Text × W
  take_step (declares_exchange m) w = b.exchange_declare m.name m.mode m.durable w
  take_step (declares_queue m c) w =
      let ((queue, e), w') = b.queue_declare (get_consumer_key m c) m.durable w in (e, w')
  take_step (binds_queue m c) w =
      b.queue_bind_to_exchange (get_consumer_key m c) m.name c.route_key w
  take_step (updates_worker m c) w = (none, (b.answer (text "update") c m w).1)

  -- All steps in order, up to the first that fails.
  abbrev pub take_steps : List Step → M W (Unit {0})
  take_steps [] = pure tt
  take_steps (x ∷ xs) = do call (take_step x); take_steps xs

  take_steps-append :
      (xs ys : List Step) (s : State W)
      → take_steps (xs ++ ys) s ≡ (take_steps xs >> take_steps ys) s
  take_steps-append [] ys s = refl
  take_steps-append (x ∷ xs) ys s = elim (Option-cases (take_step x s.world).0) [
    | inl fine ↦ rw fine (take_steps-append xs ys (call (take_step x) s).1)
    | inr (e, failed) ↦ rw failed
  ]

  -- The actions that the program sends are known to `notifyConsumerManager`.
  pub update_consumer_worker_lem :
      (c : Consumer) (m : Message) (s : State W)
      → update_consumer_worker b c m s ≡ (
        ok (b.answer (text "update") c m s.world).0,
        record s { world = (b.answer (text "update") c m s.world).1 },
      )
  unfolding update_consumer_worker ◌==◌
  update_consumer_worker_lem c m s = refl

  pub stop_consumer_worker_lem :
      (c : Consumer) (m : Message) (s : State W)
      → stop_consumer_worker b c m s ≡ (
        ok (b.answer (text "delete") c m s.world).0,
        record s { world = (b.answer (text "delete") c m s.world).1 },
      )
  unfolding stop_consumer_worker ◌==◌
  stop_consumer_worker_lem c m s = refl

  init_consumers-take_steps :
      (m : Message) (cs : List Consumer) (s : State W)
      → init_consumers b m cs s ≡ take_steps (consumer_steps m cs) s
  unfolding init_consumers
  init_consumers-take_steps m [] s = refl
  init_consumers-take_steps m (c ∷ cs) s =
      let s₁ = (call (take_step (declares_queue m c)) s).1 in
      let s₂ = (call (take_step (binds_queue m c)) s₁).1 in
      let s₃ = (call (take_step (updates_worker m c)) s₂).1 in
      elim (Option-cases (take_step (declares_queue m c) s.world).0) [
        | inl declared ↦ elim (Option-cases (take_step (binds_queue m c) s₁.world).0) [
          | inl bound ↦
              rw (declared, bound, init_consumers, ◌>>=◌, update_consumer_worker_lem c m s₂)
                (init_consumers-take_steps m cs s₃)
          | inr (e, failed) ↦ rw (declared, failed)
        ]
        | inr (e, failed) ↦ rw failed
      ]

  init_each-take_steps :
      (ms : List Message) (s : State W) → init_each b ms s ≡ take_steps (steps ms) s
  unfolding init_each
  init_each-take_steps [] s = refl
  init_each-take_steps (m ∷ ms) s =
      let s₁ = (call (take_step (declares_exchange m)) s).1 in
      elim (Option-cases (take_step (declares_exchange m) s.world).0) [
        | inl declared ↦
            rw (declared, take_steps-append (consumer_steps m m.consumers) (steps ms) s₁)
              (>>-eq (init_consumers b m m.consumers) (take_steps (consumer_steps m m.consumers))
                (init_each b ms) (take_steps (steps ms)) s₁
                (init_consumers-take_steps m m.consumers s₁) (init_each-take_steps ms))
        | inr (e, failed) ↦ rw failed
      ]

  -- `initMessages` declares each exchange, and declares, binds and starts each consumer, in the
  -- order of the messages; it stops at the first failure and returns that error.
  pub init_messages-take_steps : (s : State W) → init_messages b s ≡ take_steps (steps s.messages) s
  unfolding init_messages
  init_messages-take_steps s = init_each-take_steps s.messages s
