-- ===== src/Registry/Finds.antt =====
-- What the searches of message.go find after its operations have changed the messages.
use wmq.Common.{
  set, Bool-cases, ◌++◌, none, some, ==_refl, ℕ, zero, suc, ◌+◌, arith, ◌≡◌, refl, sym, ap, ◌∙◌,
  inl, inr, true, false, List, [], ◌∷◌, Text, ◌==◌, if◌then◌else◌, length, ok, err, Result,
}
use wmq.Registry.{
  Consumer, find_consumer, get_consumer, Message, message_is_exists, get_message, get_message_from,
}
use wmq.Registry.Backend.{Backend, State}
use wmq.Registry.Lookups.{DistinctNames, IsFirst, IsFirst-exists, IsFirst-get, get_message_lem}
use wmq.Registry.Names.{get_message-append, get_message-new, get_message-set, erase_idx-exists}
use wmq.Registry.Changes.{
  add_consumer_lem, add_message-messages, update_message_lem, delete_message_lem,
}
use wmq.Registry.Operations.{
  add_consumer, at_consumers, add_message, update_message, delete_message,
}

ok-err : {e : Text} {r : Result (Unit {0})} → r ≡ ok tt → r ≡ err e → ⊥
ok-err h h' = cc

get_message_from-IsFirst :
    (name : Text) (k : ℕ) (ms : List Message) (i : ℕ) (m : Message)
    → IsFirst name ms i m
    → get_message_from name k ms ≡ ok (m, k + i)
unfolding get_message_from
get_message_from-IsFirst name k [] i m h = absurd h
get_message_from-IsFirst name k (x ∷ xs) zero m h =
    rw h.1 (ap (λ n. ok (x, n)) (omega arith) ∙ ap (λ y. ok (y, k + 0)) h.0)
get_message_from-IsFirst name k (x ∷ xs) (suc i) m h =
    rw h.0 (get_message_from-IsFirst name (k + 1) xs i m h.1 ∙ ap (λ n. ok (m, n)) (omega arith))

get_message-IsFirst :
    (name : Text) (ms : List Message) (i : ℕ) (m : Message)
    → IsFirst name ms i m
    → get_message name ms ≡ ok (m, i)
unfolding get_message
get_message-IsFirst name ms i m h =
    get_message_from-IsFirst name 0 ms i m h ∙ ap (λ n. ok (m, n)) (omega arith)

not_absent :
    (name : Text) (ms : List Message) (m : Message) (i : ℕ)
    → get_message name ms ≡ ok (m, i)
    → message_is_exists name ms ≡ false
    → ⊥
not_absent name ms m i found absent = elim (get_message_lem name ms) [
  | inl (x, k, found', first) ↦ cc (IsFirst-exists name ms k x first)
  | inr (missing, absent') ↦ cc
]

abbrev found_at : Message → ℕ → Result (Message × ℕ)
found_at m i = ok (m, i)

pair_eq : {x y : Message} {k i : ℕ} → found_at x k ≡ found_at y i → (x ≡ y) × (k ≡ i)
pair_eq e = (cc, cc)

some-none : {A : Type 0} {a : A} → some a ≡ none → ⊥
some-none e = cc

find_consumer-append :
    (id : Text) (k : ℕ) (cs : List Consumer) (c : Consumer)
    → (c.id == id) ≡ true
    → find_consumer id k cs ≡ none
    → find_consumer id k (cs ++ c ∷ []) ≡ some (c, k + length cs)
unfolding find_consumer
find_consumer-append id k [] c same h = rw same (ap (λ n. some (c, n)) (omega arith))
find_consumer-append id k (x ∷ xs) c same h = elim (Bool-cases (x.id == id)) [
  | inl hit ↦ absurd (some-none (rw hit at h))
  | inr miss ↦ rw miss (
      find_consumer-append id (k + 1) xs c same (rw miss at h)
      ∙ ap (λ n. some (c, n)) (omega arith))
]

module _ {W : Type 0} (b : Backend W) where
  -- A message added under a new name is found under it, at the end, and every message that was
  -- there is found as before.
  pub get_message-add_message :
      (m : Message) (s : State W)
      → message_is_exists m.name s.messages ≡ false
      → let s' = (add_message b m s).1 in
        (get_message m.name s'.messages ≡ ok (m, length s.messages))
        × ((j : Text)
            → message_is_exists j s.messages ≡ true
            → get_message j s'.messages ≡ get_message j s.messages)
  get_message-add_message m s new =
      let added = (add_message-messages b m s).1 in
      (
        rw added (get_message-new s.messages m new),
        λ j old. rw added (get_message-append j s.messages m old),
      )

  -- After a message is updated its name finds the new one, with the consumers of the old, at the
  -- same place; the other names find what they did.
  get_message-update_message :
      (m old : Message) (i : ℕ) (s : State W)
      → get_message m.name s.messages ≡ ok (old, i)
      → (j : Text)
      → get_message j (update_message b m s).1.messages ≡ (
          if m.name == j
          then ok (record m { consumers = old.consumers }, i)
          else get_message j s.messages)
  get_message-update_message m old i s found j = elim (update_message_lem b m s) [
    | inl (absent, failed, same) ↦ absurd (not_absent m.name s.messages old i found absent)
    | inr (x, k, first, fine, changed) ↦
        let same = pair_eq (sym (get_message-IsFirst m.name s.messages k x first) ∙ found) in
        rw changed (
          get_message-set m.name j s.messages k x (record m { consumers = x.consumers }) first refl
          ∙ rw (same.0, same.1))
  ]

  -- After a message is deleted its name finds none, and the other names find one when they did
  -- before, as long as no two messages had one name.
  message_is_exists-delete_message :
      (m : Message) (s : State W) (j : Text)
      → DistinctNames s.messages
      → (delete_message b m s).0 ≡ ok tt
      → message_is_exists j (delete_message b m s).1.messages
        ≡ (if m.name == j then false else message_is_exists j s.messages)
  message_is_exists-delete_message m s j h fine = elim (delete_message_lem b m s) [
    | inl (absent, failed, same) ↦ absurd (ok-err fine failed)
    | inr (msg, i, first, inl (r, changed)) ↦
        rw changed (erase_idx-exists m.name j s.messages i msg first h)
    | inr (msg, i, first, inr (e, failed, same)) ↦ absurd (ok-err fine failed)
  ]

  -- A consumer added under a new identifier to a message that is found is found under it, as the
  -- last of that message.
  pub get_consumer-add_consumer :
      (msg old : Message) (c : Consumer) (i : ℕ) (s : State W)
      → get_message msg.name s.messages ≡ ok (old, i)
      → find_consumer c.id 0 old.consumers ≡ none
      → get_consumer msg.name c.id (add_consumer b msg c s).1.messages
        ≡ ok (c, i, length old.consumers)
  unfolding get_consumer
  get_consumer-add_consumer msg old c i s found new = elim (add_consumer_lem b msg c s) [
    | inl (absent, failed, same) ↦ absurd (not_absent msg.name s.messages old i found absent)
    | inr (x, k, first, fine, changed) ↦
        let (same, at) =
          pair_eq (sym (get_message-IsFirst msg.name s.messages k x first) ∙ found) in
        let (there, named) = IsFirst-get msg.name s.messages k x first in
        let m' : Message = record x { consumers = x.consumers ++ c ∷ [] } in
        let listed : (add_consumer b msg c s).1.messages ≡ set s.messages k m' =
          changed ∙ rw (there, at_consumers) in
        let found' : get_message msg.name (add_consumer b msg c s).1.messages ≡ ok (m', k) =
          ap (get_message msg.name) listed
          ∙ get_message-set msg.name msg.name s.messages k x m' first named
          ∙ rw (==_refl msg.name) in
        let new' : find_consumer c.id 0 x.consumers ≡ none =
          ap (λ (y : Message). find_consumer c.id 0 y.consumers) same ∙ new in
        rw (found', get_consumer, find_consumer-append c.id 0 x.consumers c (==_refl c.id) new', at)
          (ap (λ n. ok (c, i, n)) (omega arith)
            ∙ ap (λ (y : Message). ok (c, i, length y.consumers)) same)
  ]
