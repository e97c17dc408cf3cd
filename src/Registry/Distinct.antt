-- ===== src/Registry/Distinct.antt =====
-- The operations of message.go keep the names of the messages apart.
use wmq.Common.{
  ℕ, zero, suc, ◌≡◌, refl, ◌∙◌, inl, inr, false, List, [], ◌∷◌, Text, Option-cases, get_elem?,
}
use wmq.Registry.{Message, Consumer, message_is_exists}
use wmq.Registry.Backend.{Backend, State}
use wmq.Registry.Lookups.{DistinctNames}
use wmq.Registry.Names.{append-DistinctNames, set-DistinctNames, erase_idx-DistinctNames}
use wmq.Registry.Changes.{
  add_message-messages, update_message_lem, delete_message_lem, add_consumer_lem,
  update_consumer_lem, delete_consumer_lem,
}
use wmq.Registry.Operations.{
  at_consumers, add_message, update_message, delete_message, add_consumer, update_consumer,
  delete_consumer,
}

at_consumers-suc :
    (i : ℕ) (f : List Consumer → List Consumer) (x : Message) (xs : List Message)
    → at_consumers (suc i) f (x ∷ xs) ≡ x ∷ at_consumers i f xs
at_consumers-suc i f x xs = elim (Option-cases (get_elem? xs i)) [
  | inl past ↦ rw (past, at_consumers)
  | inr (m, there) ↦ rw (there, at_consumers)
]

at_consumers-exists :
    (j : Text) (i : ℕ) (f : List Consumer → List Consumer) (ms : List Message)
    → message_is_exists j (at_consumers i f ms) ≡ message_is_exists j ms
unfolding message_is_exists
at_consumers-exists j i f [] = refl
at_consumers-exists j zero f (x ∷ xs) = refl
at_consumers-exists j (suc i) f (x ∷ xs) =
    rw (at_consumers-suc i f x xs, at_consumers-exists j i f xs)

at_consumers-DistinctNames :
    (i : ℕ) (f : List Consumer → List Consumer) (ms : List Message)
    → DistinctNames ms
    → DistinctNames (at_consumers i f ms)
at_consumers-DistinctNames i f [] h = tt
at_consumers-DistinctNames zero f (x ∷ xs) h = h
at_consumers-DistinctNames (suc i) f (x ∷ xs) h =
    rw (at_consumers-suc i f x xs)
      (at_consumers-exists x.name i f xs ∙ h.0, at_consumers-DistinctNames i f xs h.1)

module _ {W : Type 0} (b : Backend W) where
  pub add_message-DistinctNames :
      (m : Message) (s : State W)
      → message_is_exists m.name s.messages ≡ false
      → DistinctNames s.messages
      → DistinctNames (add_message b m s).1.messages
  add_message-DistinctNames m s new h =
      rw ((add_message-messages b m s).1) (append-DistinctNames s.messages m new h)

  pub update_message-DistinctNames :
      (m : Message) (s : State W)
      → DistinctNames s.messages
      → DistinctNames (update_message b m s).1.messages
  update_message-DistinctNames m s h = elim (update_message_lem b m s) [
    | inl (absent, failed, same) ↦ rw same h
    | inr (old, i, first, fine, changed) ↦
        rw changed (set-DistinctNames m.name s.messages i old _ first refl h)
  ]

  pub delete_message-DistinctNames :
      (m : Message) (s : State W)
      → DistinctNames s.messages
      → DistinctNames (delete_message b m s).1.messages
  delete_message-DistinctNames m s h = elim (delete_message_lem b m s) [
    | inl (absent, failed, same) ↦ rw same h
    | inr (msg, i, first, inl (fine, changed)) ↦ rw changed (erase_idx-DistinctNames s.messages i h)
    | inr (msg, i, first, inr (e, failed, same)) ↦ rw same h
  ]

  pub add_consumer-DistinctNames :
      (msg : Message) (c : Consumer) (s : State W)
      → DistinctNames s.messages
      → DistinctNames (add_consumer b msg c s).1.messages
  add_consumer-DistinctNames msg c s h = elim (add_consumer_lem b msg c s) [
    | inl (absent, failed, same) ↦ rw same h
    | inr (old, i, first, fine, changed) ↦ rw changed (at_consumers-DistinctNames i _ s.messages h)
  ]

  pub update_consumer-DistinctNames :
      (msg : Message) (c : Consumer) (s : State W)
      → DistinctNames s.messages
      → DistinctNames (update_consumer b msg c s).1.messages
  update_consumer-DistinctNames msg c s h = elim (update_consumer_lem b msg c s) [
    | inl (e, missing, failed, same) ↦ rw same h
    | inr (old, found, fine, changed) ↦ rw changed (at_consumers-DistinctNames old.1 _ s.messages h)
  ]

  pub delete_consumer-DistinctNames :
      (msg : Message) (c : Consumer) (s : State W)
      → DistinctNames s.messages
      → DistinctNames (delete_consumer b msg c s).1.messages
  delete_consumer-DistinctNames msg c s h = elim (delete_consumer_lem b msg c s) [
    | inl (e, missing, failed, same) ↦ rw same h
    | inr (old, found, changed) ↦ rw changed (at_consumers-DistinctNames old.1 _ s.messages h)
  ]
