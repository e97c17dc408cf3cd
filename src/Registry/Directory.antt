-- ===== src/Registry/Directory.antt =====
-- What the operations of message.go promise: the messages are a directory by their names, in which each change is
-- one assignment. The order of the list is forgotten.
pub mod Views
pub mod Consumers
pub mod Refines
use wmq.Common.{
  ◌≡◌, ◌⊎◌, Bool, true, false, Option, none, some, List, [], ◌∷◌, ◌++◌, Text, text, ◌==◌, Result,
  ok, err, if◌then◌else◌,
}
use wmq.Registry.{Message, Consumer, message_is_exists}
use wmq.Registry.Backend.{Backend, State, M, fail}
use wmq.Registry.Operations.{
  add_message, update_message, delete_message, add_consumer, update_consumer, delete_consumer,
}

abbrev pub Directory : Type 0
Directory = Text → Option Message

-- The first message of a name.
unfoldable pub directory : List Message → Directory
directory [] name = none
directory (m ∷ ms) name = if m.name == name then some m else directory ms name

-- The operations; a message is added as `apiMessageAdd` does, if there is none of its name.
pub data Operation : Type 0 where
  adds updates deletes : Message → Operation
  adds_consumer updates_consumer deletes_consumer : Message → Consumer → Operation

module _ {W : Type 0} (b : Backend W) where
  unfoldable pub apply : Operation → M W (Unit {0})
  unfolding add_message update_message delete_message add_consumer update_consumer delete_consumer
  apply (adds m) s =
      if message_is_exists m.name s.messages
      then fail (text "message exists") s
      else add_message b m s
  apply (updates m) s = update_message b m s
  apply (deletes m) s = delete_message b m s
  apply (adds_consumer m c) s = add_consumer b m c s
  apply (updates_consumer m c) s = update_consumer b m c s
  apply (deletes_consumer m c) s = delete_consumer b m c s

  unfoldable pub apply_all : List Operation → State W → List (Result (Unit {0})) × State W
  unfolding apply
  apply_all [] s = ([], s)
  apply_all (op ∷ ops) s =
      let (r, s₁) = apply op s in let (rs, s₂) = apply_all ops s₁ in (r ∷ rs, s₂)

-- The list with the first consumer of the identifier replaced, or without it; none when there is none.
abbrev pub change_first :
    Text → (Consumer → List Consumer → List Consumer) → List Consumer → Option (List Consumer)
change_first id f [] = none
change_first id f (c ∷ cs) =
    let rest = change_first id f cs in
    if c.id == id then some (f c cs) else elim rest [ some cs' ↦ some (c ∷ cs') | none ↦ none ]

abbrev pub Same : Directory → Directory → Type 0
Same d d' = (j : Text) → d' j ≡ d j

abbrev pub Assigned : Directory → Text → Option Message → Directory → Type 0
Assigned d name x d' = (j : Text) → d' j ≡ (if name == j then x else d j)

abbrev pub NotFound : Directory → Result (Unit {0}) → Directory → Type 0
NotFound d r d' = (r ≡ err (text "message not found")) × Same d d'

abbrev pub OnConsumers :
    (Result (Unit {0}) → Type 0)
    → Directory
    → Text
    → Message
    → Option (List Consumer)
    → Result (Unit {0})
    → Directory
    → Type 0
OnConsumers Answers d name old none r d' = (r ≡ err (text "consumer not found")) × Same d d'
OnConsumers Answers d name old (some cs) r d' =
    Answers r × Assigned d name (some (record old { consumers = cs })) d'

abbrev pub Succeeds : Result (Unit {0}) → Type 0
Succeeds r = r ≡ ok tt

-- What an operation may answer and what the directory is afterwards.
abbrev pub Specified : Operation → Directory → Result (Unit {0}) → Directory → Type 0
Specified (adds m) d r d' = elim (d m.name) [
  | some old ↦ (r ≡ err (text "message exists")) × Same d d'
  | none ↦ (r ≡ ok tt) × Assigned d m.name (some m) d'
]
Specified (updates m) d r d' = elim (d m.name) [
  | some old ↦ (r ≡ ok tt) × Assigned d m.name (some (record m { consumers = old.consumers })) d'
  | none ↦ NotFound d r d'
]
Specified (deletes m) d r d' = elim (d m.name) [
  | some old ↦ ((r ≡ ok tt) × Assigned d m.name none d') ⊎ ((e : Text) × (r ≡ err e) × Same d d')
  | none ↦ NotFound d r d'
]
Specified (adds_consumer m c) d r d' = elim (d m.name) [
  | some old ↦
      (r ≡ ok tt) × Assigned d m.name (some (record old { consumers = old.consumers ++ c ∷ [] })) d'
  | none ↦ NotFound d r d'
]
Specified (updates_consumer m c) d r d' = elim (d m.name) [
  | some old ↦
      OnConsumers Succeeds d m.name old (change_first c.id (λ x rest. c ∷ rest) old.consumers) r d'
  | none ↦ NotFound d r d'
]
Specified (deletes_consumer m c) d r d' = elim (d m.name) [
  | some old ↦
      OnConsumers (λ r. Unit) d m.name old (change_first c.id (λ x rest. rest) old.consumers) r d'
  | none ↦ NotFound d r d'
]

abbrev pub SpecifiedAll : List Operation → Directory → List (Result (Unit {0})) → Directory → Type 0
SpecifiedAll [] d rs d' = (rs ≡ []) × Same d d'
SpecifiedAll (op ∷ ops) d [] d' = ⊥
SpecifiedAll (op ∷ ops) d (r ∷ rs) d' =
    (d₁ : Directory) × Specified op d r d₁ × SpecifiedAll ops d₁ rs d'
