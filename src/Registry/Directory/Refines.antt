-- ===== src/Registry/Directory/Refines.antt =====
-- The operations of message.go against the directory of the messages.
use wmq.Common.{refl, inl, inr, List, [], ◌∷◌, ◌++◌, Bool-cases}
use wmq.Registry.{Message, Consumer, message_is_exists}
use wmq.Registry.Backend.{Backend, State}
use wmq.Registry.Lookups.{DistinctNames, IsFirst-exists, get_message_lem}
use wmq.Registry.Changes.{
  add_message-messages, update_message_lem, delete_message_lem, add_consumer_lem,
}
use wmq.Registry.Distinct.{
  add_message-DistinctNames, update_message-DistinctNames, delete_message-DistinctNames,
  add_consumer-DistinctNames, update_consumer-DistinctNames, delete_consumer-DistinctNames,
}
use wmq.Registry.Directory.{
  directory, Operation, adds, updates, deletes, adds_consumer, updates_consumer, deletes_consumer,
  apply, apply_all, Specified, SpecifiedAll,
}
use wmq.Registry.Directory.Views.{
  directory-absent, directory-IsFirst, directory-append, directory-set, directory-erase_idx,
}
use wmq.Registry.Directory.Consumers.{
  at_consumers-Assigned, updates_consumer-Specified, deletes_consumer-Specified,
}

module _ {W : Type 0} (b : Backend W) where
  adds-Specified :
      (m : Message) (s : State W)
      → Specified
          (adds m)
          (directory s.messages)
          (apply b (adds m) s).0
          (directory (apply b (adds m) s).1.messages)
  unfolding apply
  adds-Specified m s = elim (get_message_lem m.name s.messages) [
    | inl (old, i, found, first) ↦
        rw
          (
            Specified,
            directory-IsFirst m.name s.messages i old first,
            IsFirst-exists m.name s.messages i old first,
            apply,
          )
          (refl, λ j. refl)
    | inr (missing, absent) ↦
        let (fine, added) = add_message-messages b m s in
        rw (Specified, directory-absent m.name s.messages absent, absent, apply, added)
          (fine, λ j. directory-append s.messages m j absent)
  ]

  updates-Specified :
      (m : Message) (s : State W)
      → Specified
          (updates m)
          (directory s.messages)
          (apply b (updates m) s).0
          (directory (apply b (updates m) s).1.messages)
  unfolding apply
  updates-Specified m s = elim (update_message_lem b m s) [
    | inl (absent, failed, same) ↦
        rw (Specified, directory-absent m.name s.messages absent) (failed, λ j. rw same)
    | inr (old, i, first, fine, changed) ↦
        rw (Specified, directory-IsFirst m.name s.messages i old first, changed)
          (fine, λ j. directory-set m.name j s.messages i old _ first refl)
  ]

  deletes-Specified :
      (m : Message) (s : State W)
      → DistinctNames s.messages
      → Specified
          (deletes m)
          (directory s.messages)
          (apply b (deletes m) s).0
          (directory (apply b (deletes m) s).1.messages)
  unfolding apply
  deletes-Specified m s d = elim (delete_message_lem b m s) [
    | inl (absent, failed, same) ↦
        rw (Specified, directory-absent m.name s.messages absent) (failed, λ j. rw same)
    | inr (old, i, first, inl (fine, changed)) ↦
        rw (Specified, directory-IsFirst m.name s.messages i old first, changed)
          (inl (fine, λ j. directory-erase_idx m.name j s.messages i old first d))
    | inr (old, i, first, inr (e, failed, same)) ↦
        rw (Specified, directory-IsFirst m.name s.messages i old first, same)
          (inr (e, failed, λ j. refl))
  ]

  adds_consumer-Specified :
      (m : Message) (c : Consumer) (s : State W)
      → Specified
          (adds_consumer m c)
          (directory s.messages)
          (apply b (adds_consumer m c) s).0
          (directory (apply b (adds_consumer m c) s).1.messages)
  unfolding apply
  adds_consumer-Specified m c s = elim (add_consumer_lem b m c s) [
    | inl (absent, failed, same) ↦
        rw (Specified, directory-absent m.name s.messages absent) (failed, λ j. rw same)
    | inr (old, i, first, fine, changed) ↦
        rw (Specified, directory-IsFirst m.name s.messages i old first, changed)
          (fine, at_consumers-Assigned m.name s.messages i old (λ cs. cs ++ c ∷ []) first)
  ]

  apply-Specified :
      (op : Operation) (s : State W)
      → DistinctNames s.messages
      → Specified op (directory s.messages) (apply b op s).0 (directory (apply b op s).1.messages)
  apply-Specified (adds m) s d = adds-Specified m s
  apply-Specified (updates m) s d = updates-Specified m s
  apply-Specified (deletes m) s d = deletes-Specified m s d
  apply-Specified (adds_consumer m c) s d = adds_consumer-Specified m c s
  apply-Specified (updates_consumer m c) s d = updates_consumer-Specified b m c s
  apply-Specified (deletes_consumer m c) s d = deletes_consumer-Specified b m c s

  apply-DistinctNames :
      (op : Operation) (s : State W)
      → DistinctNames s.messages
      → DistinctNames (apply b op s).1.messages
  unfolding apply
  apply-DistinctNames (adds m) s d = elim (Bool-cases (message_is_exists m.name s.messages)) [
    | inl there ↦ rw (there, apply) d
    | inr absent ↦ rw (absent, apply) (add_message-DistinctNames b m s absent d)
  ]
  apply-DistinctNames (updates m) s d = update_message-DistinctNames b m s d
  apply-DistinctNames (deletes m) s d = delete_message-DistinctNames b m s d
  apply-DistinctNames (adds_consumer m c) s d = add_consumer-DistinctNames b m c s d
  apply-DistinctNames (updates_consumer m c) s d = update_consumer-DistinctNames b m c s d
  apply-DistinctNames (deletes_consumer m c) s d = delete_consumer-DistinctNames b m c s d

  -- When no two messages have one name, any operations one after the other answer and change the messages as the
  -- directory says: each succeeds or fails by what the directory has, and assigns one name at most;
  -- only the deletions may fail for another reason, that of a message with nothing changed and that of a
  -- consumer with the consumer removed all the same.
  pub apply_all-Specified :
      (ops : List Operation) (s : State W)
      → DistinctNames s.messages
      → SpecifiedAll ops
          (directory s.messages)
          (apply_all b ops s).0
          (directory (apply_all b ops s).1.messages)
  unfolding apply_all
  apply_all-Specified [] s d = (refl, λ j. refl)
  apply_all-Specified (op ∷ ops) s d = (
    directory (apply b op s).1.messages,
    apply-Specified op s d,
    apply_all-Specified ops (apply b op s).1 (apply-DistinctNames op s d),
  )
