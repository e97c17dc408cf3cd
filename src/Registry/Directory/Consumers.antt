-- ===== src/Registry/Directory/Consumers.antt =====
-- The operations of message.go on the consumers of a message against the directory.
use wmq.Common.{
  ℕ, ◌≡◌, ap, ◌∙◌, inl, inr, ◌⊎◌, false, none, some, List, ◌∷◌, Text, text, set, erase_idx, Result,
  ok, err, Option-cases,
}
use wmq.Registry.{Message, Consumer, message_is_exists, find_consumer, get_consumer}
use wmq.Registry.Backend.{Backend, State}
use wmq.Registry.Lookups.{IsFirst, IsFirst-get, get_message_lem}
use wmq.Registry.Operations.{at_consumers}
use wmq.Registry.Changes.{update_consumer_lem, delete_consumer_lem}
use wmq.Registry.Directory.{
  directory, updates_consumer, deletes_consumer, apply, Assigned, Specified, OnConsumers,
}
use wmq.Registry.Directory.Views.{
  directory-absent, directory-IsFirst, directory-set, change_first-none, change_first-set,
  change_first-erase_idx,
}

-- The consumers of the first message of a name are changed.
pub at_consumers-Assigned :
    (name : Text) (ms : List Message) (i : ℕ) (old : Message) (f : List Consumer → List Consumer)
    → IsFirst name ms i old
    → Assigned
        (directory ms)
        name
        (some (record old { consumers = f old.consumers }))
        (directory (at_consumers i f ms))
at_consumers-Assigned name ms i old f first j =
    let (there, named) = IsFirst-get name ms i old first in
    rw (there, at_consumers)
      (directory-set name j ms i old (record old { consumers = f old.consumers }) first named)

-- How `getConsumer` ends.
abbrev ConsumerCases : Text → Text → List Message → Type 0
ConsumerCases name id ms =
    ((message_is_exists name ms ≡ false)
      × (get_consumer name id ms ≡ err (text "message not found")))
    ⊎ ((m : Message) × (i : ℕ) × IsFirst name ms i m
        × (((find_consumer id 0 m.consumers ≡ none)
              × (get_consumer name id ms ≡ err (text "consumer not found")))
            ⊎ ((c : Consumer) × (k : ℕ) × (find_consumer id 0 m.consumers ≡ some (c, k))
                × (get_consumer name id ms ≡ ok (c, i, k)))))

get_consumer-cases : (name id : Text) (ms : List Message) → ConsumerCases name id ms
unfolding get_consumer
get_consumer-cases name id ms = elim (get_message_lem name ms) [
  | inr (missing, absent) ↦ inl (absent, rw (missing, get_consumer))
  | inl (m, i, found, first) ↦ elim (Option-cases (find_consumer id 0 m.consumers)) [
    | inl lost ↦ inr (m, i, first, inl (lost, rw (found, get_consumer, lost)))
    | inr ((c, k), there) ↦ inr (m, i, first, inr (c, k, there, rw (found, get_consumer, there)))
  ]
]

abbrev found_at : Consumer → ℕ → ℕ → Result (Consumer × ℕ × ℕ)
found_at c i k = ok (c, i, k)

ok-err :
    {r : Result (Consumer × ℕ × ℕ)} {x : Consumer × ℕ × ℕ} {e : Text} → r ≡ ok x → r ≡ err e → ⊥
ok-err h h' = cc

err-injective : {r : Result (Consumer × ℕ × ℕ)} {d e : Text} → r ≡ err d → r ≡ err e → d ≡ e
err-injective h h' = cc

ok-injective :
    {r : Result (Consumer × ℕ × ℕ)} {x y : Consumer × ℕ × ℕ} → r ≡ ok x → r ≡ ok y → x ≡ y
ok-injective h h' = cc

module _ {W : Type 0} (b : Backend W) where
  pub updates_consumer-Specified :
      (m : Message) (c : Consumer) (s : State W)
      → Specified
          (updates_consumer m c)
          (directory s.messages)
          (apply b (updates_consumer m c) s).0
          (directory (apply b (updates_consumer m c) s).1.messages)
  unfolding apply
  updates_consumer-Specified m c s = elim (get_consumer-cases m.name c.id s.messages) [
    | inl (absent, missing) ↦ elim (update_consumer_lem b m c s) [
      | inl (e, failed, result, same) ↦
          rw (Specified, directory-absent m.name s.messages absent)
            (result ∙ ap err (err-injective failed missing), λ j. rw same)
      | inr (old, found, fine, changed) ↦ absurd (ok-err found missing)
    ]
    | inr (old, i, first, inl (lost, missing)) ↦ elim (update_consumer_lem b m c s) [
      | inl (e, failed, result, same) ↦
          rw
            (
              Specified,
              directory-IsFirst m.name s.messages i old first,
              OnConsumers,
              change_first-none c.id (λ x rest. c ∷ rest) 0 old.consumers lost,
            )
            (result ∙ ap err (err-injective failed missing), λ j. rw same)
      | inr (x, found, fine, changed) ↦ absurd (ok-err found missing)
    ]
    | inr (old, i, first, inr (c₀, k, there, present)) ↦ elim (update_consumer_lem b m c s) [
      | inl (e, failed, result, same) ↦ absurd (ok-err present failed)
      | inr (x, found, fine, changed) ↦
          let at = ok-injective found present in
          let now = changed ∙ ap (λ y. at_consumers y.1 (λ cs. set cs y.2 c) s.messages) at in
          rw
            (
              Specified,
              directory-IsFirst m.name s.messages i old first,
              OnConsumers,
              change_first-set c.id old.consumers c₀ c k there,
              now,
            )
            (fine, at_consumers-Assigned m.name s.messages i old (λ cs. set cs k c) first)
    ]
  ]

  pub deletes_consumer-Specified :
      (m : Message) (c : Consumer) (s : State W)
      → Specified
          (deletes_consumer m c)
          (directory s.messages)
          (apply b (deletes_consumer m c) s).0
          (directory (apply b (deletes_consumer m c) s).1.messages)
  unfolding apply
  deletes_consumer-Specified m c s = elim (get_consumer-cases m.name c.id s.messages) [
    | inl (absent, missing) ↦ elim (delete_consumer_lem b m c s) [
      | inl (e, failed, result, same) ↦
          rw (Specified, directory-absent m.name s.messages absent)
            (result ∙ ap err (err-injective failed missing), λ j. rw same)
      | inr (old, found, changed) ↦ absurd (ok-err found missing)
    ]
    | inr (old, i, first, inl (lost, missing)) ↦ elim (delete_consumer_lem b m c s) [
      | inl (e, failed, result, same) ↦
          rw
            (
              Specified,
              directory-IsFirst m.name s.messages i old first,
              OnConsumers,
              change_first-none c.id (λ x rest. rest) 0 old.consumers lost,
            )
            (result ∙ ap err (err-injective failed missing), λ j. rw same)
      | inr (x, found, changed) ↦ absurd (ok-err found missing)
    ]
    | inr (old, i, first, inr (c₀, k, there, present)) ↦ elim (delete_consumer_lem b m c s) [
      | inl (e, failed, result, same) ↦ absurd (ok-err present failed)
      | inr (x, found, changed) ↦
          let at = ok-injective found present in
          let now = changed ∙ ap (λ y. at_consumers y.1 (λ cs. erase_idx cs y.2) s.messages) at in
          rw
            (
              Specified,
              directory-IsFirst m.name s.messages i old first,
              OnConsumers,
              change_first-erase_idx c.id old.consumers c₀ k there,
              now,
            )
            (tt, at_consumers-Assigned m.name s.messages i old (λ cs. erase_idx cs k) first)
    ]
  ]
