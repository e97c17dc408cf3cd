-- ===== src/Registry/Changes.antt =====
-- What each operation of message.go does to the messages, on every outcome.
use wmq.Common.{
  Result, ℕ, ◌≡◌, refl, ap, ◌∙◌, ◌⊎◌, inl, inr, false, List, [], ◌∷◌, ◌++◌, Text, text, set,
  erase_idx, ok, err, Result-cases, Option-cases,
}
use wmq.Registry.{Message, Consumer, message_is_exists, get_consumer, get_consumer_key}
use wmq.Registry.Backend.{Backend, State, M, ◌>>=◌, ◌>>◌, call}
use wmq.Registry.Lookups.{IsFirst, get_message_lem}
use wmq.Registry.Declaring.{
  steps, Step, take_step, take_steps, init_messages-take_steps, update_consumer_worker_lem,
  stop_consumer_worker_lem,
}
use wmq.Registry.Operations.{
  at_consumers, init_messages, add_message, update_message, delete_message, add_consumer,
  update_consumer, delete_consumer, stop_each, delete_each,
}

module _ {W : Type 0} (b : Backend W) where
  -- The state after a worker was told to stop.
  abbrev stopped : Consumer → Message → State W → State W
  stopped c m s = record s { world = (b.answer (text "delete") c m s.world).1 }

  take_steps-messages : (xs : List Step) (s : State W) → (take_steps b xs s).1.messages ≡ s.messages
  take_steps-messages [] s = refl
  take_steps-messages (x ∷ xs) s = elim (Option-cases (take_step b x s.world).0) [
    | inl fine ↦ rw fine (take_steps-messages xs (call (take_step b x) s).1)
    | inr (e, failed) ↦ rw failed
  ]

  pub init_messages-messages : (s : State W) → (init_messages b s).1.messages ≡ s.messages
  init_messages-messages s =
      rw (init_messages-take_steps b s) (take_steps-messages (steps s.messages) s)

  >>-messages :
      (m n : M W (Unit {0})) (s : State W)
      → (m s).1.messages ≡ s.messages
      → ((t : State W) → (n t).1.messages ≡ t.messages)
      → ((m >> n) s).1.messages ≡ s.messages
  >>-messages m n s first second = elim (Result-cases (m s).0) [
    | inl (u, fine) ↦ rw (fine, ◌>>=◌) (second (m s).1 ∙ first)
    | inr (e, failed) ↦ rw (failed, ◌>>=◌) first
  ]

  -- Stopping workers always succeeds, and leaves the messages.
  pub stop_each_lem :
      (m : Message) (cs : List Consumer) (s : State W)
      → ((stop_each b m cs s).0 ≡ ok tt) × ((stop_each b m cs s).1.messages ≡ s.messages)
  unfolding stop_each
  stop_each_lem m [] s = (refl, refl)
  stop_each_lem m (c ∷ cs) s =
      rw (stop_each, ◌>>=◌, stop_consumer_worker_lem b c m s) (stop_each_lem m cs _)

  delete_each-messages :
      (m msg : Message) (cs : List Consumer) (s : State W)
      → (delete_each b m msg cs s).1.messages ≡ s.messages
  unfolding delete_each
  delete_each-messages m msg [] s = refl
  delete_each-messages m msg (c ∷ cs) s =
      let s₁ = stopped c m s in
      elim (Option-cases (b.delete_queue (get_consumer_key msg c) s₁.world).0) [
        | inl deleted ↦
            rw (delete_each, ◌>>=◌, stop_consumer_worker_lem b c m s, deleted)
              (delete_each-messages m msg cs _)
        | inr (e, failed) ↦ rw (delete_each, ◌>>=◌, stop_consumer_worker_lem b c m s, failed)
      ]

  -- `addMessage` never fails, and the message is the last one.
  pub add_message-messages :
      (m : Message) (s : State W)
      → ((add_message b m s).0 ≡ ok tt) × ((add_message b m s).1.messages ≡ s.messages ++ m ∷ [])
  unfolding add_message
  add_message-messages m s = (refl, init_messages-messages _)

  abbrev pub UpdateOutcome : Message → State W → Result (Unit {0}) → State W → Type 0
  UpdateOutcome m s r s' =
      ((message_is_exists m.name s.messages ≡ false)
        × (r ≡ err (text "message not found"))
        × (s' ≡ s))
      ⊎ ((old : Message) × (i : ℕ) × IsFirst m.name s.messages i old
          × (r ≡ ok tt)
          × (s'.messages ≡ set s.messages i (record m { consumers = old.consumers })))

  -- `updateMessage` fails, with nothing done, when there is no message of the name. Otherwise it
  -- succeeds, and the message found is replaced by the new one with the old consumers.
  pub update_message_lem :
      (m : Message) (s : State W)
      → UpdateOutcome m s (update_message b m s).0 (update_message b m s).1
  unfolding update_message
  update_message_lem m s = elim (get_message_lem m.name s.messages) [
    | inl (old, i, found, first) ↦
        let m' = record m { consumers = old.consumers } in
        let stops = stop_each_lem m' old.consumers (record s { messages = set s.messages i m' }) in
        rw (found, update_message, ◌>>=◌, ◌>>◌, stops.0)
          (inr (old, i, first, refl, init_messages-messages _ ∙ stops.1))
    | inr (missing, absent) ↦ rw (missing, update_message, ◌>>=◌) (inl (absent, refl, refl))
  ]

  abbrev pub DeleteOutcome : Message → State W → Result (Unit {0}) → State W → Type 0
  DeleteOutcome m s r s' =
      ((message_is_exists m.name s.messages ≡ false)
        × (r ≡ err (text "message not found"))
        × (s' ≡ s))
      ⊎ ((msg : Message) × (i : ℕ) × IsFirst m.name s.messages i msg
          × (((r ≡ ok tt) × (s'.messages ≡ erase_idx s.messages i))
              ⊎ ((e : Text) × (r ≡ err e) × (s'.messages ≡ s.messages))))

  -- `deleteMessage` fails, with nothing done, when there is no message of the name. Otherwise it
  -- either removes the message found, or returns an error and leaves the messages as they were.
  pub delete_message_lem :
      (m : Message) (s : State W)
      → DeleteOutcome m s (delete_message b m s).0 (delete_message b m s).1
  unfolding delete_message
  delete_message_lem m s = elim (get_message_lem m.name s.messages) [
    | inl (msg, i, found, first) ↦
        let s₁ = (delete_each b m msg msg.consumers s).1 in
        let kept = delete_each-messages m msg msg.consumers s in
        elim (Result-cases (delete_each b m msg msg.consumers s).0) [
          | inl (u, fine) ↦ elim (Option-cases (b.delete_exchange msg.name s₁.world).0) [
            | inl gone ↦
                rw (found, delete_message, ◌>>=◌, ◌>>◌, fine, gone)
                  (inr (
                    msg,
                    i,
                    first,
                    inl (refl, init_messages-messages _ ∙ ap (λ ms. erase_idx ms i) kept),
                  ))
            | inr (e, failed) ↦
                rw (found, delete_message, ◌>>=◌, ◌>>◌, fine, failed)
                  (inr (msg, i, first, inr (e, refl, kept)))
          ]
          | inr (e, failed) ↦
              rw (found, delete_message, ◌>>=◌, ◌>>◌, failed)
                (inr (msg, i, first, inr (e, refl, kept)))
        ]
    | inr (missing, absent) ↦ rw (missing, delete_message, ◌>>=◌) (inl (absent, refl, refl))
  ]

  abbrev pub AddConsumerOutcome :
      Message → Consumer → State W → Result (Unit {0}) → State W → Type 0
  AddConsumerOutcome msg c s r s' =
      ((message_is_exists msg.name s.messages ≡ false)
        × (r ≡ err (text "message not found"))
        × (s' ≡ s))
      ⊎ ((old : Message) × (i : ℕ) × IsFirst msg.name s.messages i old
          × (r ≡ ok tt)
          × (s'.messages ≡ at_consumers i (λ cs. cs ++ c ∷ []) s.messages))

  -- `addConsumer` fails, with nothing done, when there is no message of the name; otherwise it
  -- succeeds and the consumer is the last of that message.
  pub add_consumer_lem :
      (msg : Message) (c : Consumer) (s : State W)
      → AddConsumerOutcome msg c s (add_consumer b msg c s).0 (add_consumer b msg c s).1
  unfolding add_consumer
  add_consumer_lem msg c s = elim (get_message_lem msg.name s.messages) [
    | inl (old, i, found, first) ↦
        rw (found, add_consumer, ◌>>=◌) (inr (old, i, first, refl, init_messages-messages _))
    | inr (missing, absent) ↦ rw (missing, add_consumer, ◌>>=◌) (inl (absent, refl, refl))
  ]

  abbrev pub UpdateConsumerOutcome :
      Message → Consumer → State W → Result (Unit {0}) → State W → Type 0
  UpdateConsumerOutcome msg c s r s' =
      ((e : Text) × (get_consumer msg.name c.id s.messages ≡ err e) × (r ≡ err e) × (s' ≡ s))
      ⊎ ((old : Consumer × ℕ × ℕ) × (get_consumer msg.name c.id s.messages ≡ ok old)
          × (r ≡ ok tt)
          × (s'.messages ≡ at_consumers old.1 (λ cs. set cs old.2 c) s.messages))

  -- `updateConsumer` fails, with nothing done, when `getConsumer` does; otherwise it succeeds and
  -- the consumer found is replaced.
  pub update_consumer_lem :
      (msg : Message) (c : Consumer) (s : State W)
      → UpdateConsumerOutcome msg c s (update_consumer b msg c s).0 (update_consumer b msg c s).1
  unfolding update_consumer
  update_consumer_lem msg c s = elim (Result-cases (get_consumer msg.name c.id s.messages)) [
    | inl (old, found) ↦
        rw (found, update_consumer, ◌>>=◌, update_consumer_worker_lem b c msg _)
          (inr (old, refl, refl, refl))
    | inr (e, missing) ↦ rw (missing, update_consumer, ◌>>=◌) (inl (e, refl, refl, refl))
  ]

  abbrev pub DeleteConsumerOutcome :
      Message → Consumer → State W → Result (Unit {0}) → State W → Type 0
  DeleteConsumerOutcome msg c s r s' =
      ((e : Text) × (get_consumer msg.name c.id s.messages ≡ err e) × (r ≡ err e) × (s' ≡ s))
      ⊎ ((old : Consumer × ℕ × ℕ) × (get_consumer msg.name c.id s.messages ≡ ok old)
          × (s'.messages ≡ at_consumers old.1 (λ cs. erase_idx cs old.2) s.messages))

  -- `deleteConsumer` fails, with nothing done, when `getConsumer` does; otherwise the consumer
  -- found is removed, also when a later step fails and an error is returned.
  pub delete_consumer_lem :
      (msg : Message) (c : Consumer) (s : State W)
      → DeleteConsumerOutcome msg c s (delete_consumer b msg c s).0 (delete_consumer b msg c s).1
  unfolding delete_consumer
  delete_consumer_lem msg c s = elim (Result-cases (get_consumer msg.name c.id s.messages)) [
    | inl (old, found) ↦
        rw (found, delete_consumer, ◌>>=◌, stop_consumer_worker_lem b c msg _)
          (inr (
            old,
            refl,
            >>-messages (init_messages b) (call (b.delete_queue (get_consumer_key msg c))) _
                (init_messages-messages _) (λ t. refl),
          ))
    | inr (e, missing) ↦ rw (missing, delete_consumer, ◌>>=◌) (inl (e, refl, refl, refl))
  ]
