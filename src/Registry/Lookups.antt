-- ===== src/Registry/Lookups.antt =====
-- What the searches of message.go find.
use wmq.Common.{
  ℕ, zero, suc, ◌+◌, ◌≡◌, refl, sym, ap, ◌∙◌, ◌⊎◌, inl, inr, Bool, true, false, none, some, List,
  [], ◌∷◌, Text, text, arith, ◌==◌, ==_iff, get_elem?, Result, ok, err, Bool-cases, Option-cases,
}
use wmq.Registry.{
  Message, Consumer, message_is_exists, find_consumer, consumer_exists_from, consumer_is_exists,
  get_message_from, get_message, get_consumer,
}

-- No two messages have one name.
abbrev pub DistinctNames : List Message → Type 0
DistinctNames [] = Unit
DistinctNames (m ∷ ms) = (message_is_exists m.name ms ≡ false) × DistinctNames ms

-- The messages before index `i` have other names, and the one there has this name.
abbrev pub IsFirst : Text → List Message → ℕ → Message → Type 0
IsFirst name [] i m = ⊥
IsFirst name (x ∷ xs) zero m = (x ≡ m) × ((x.name == name) ≡ true)
IsFirst name (x ∷ xs) (suc i) m = ((x.name == name) ≡ false) × IsFirst name xs i m

abbrev Finds : Text → ℕ → List Message → Result (Message × ℕ) → Type 0
Finds name k ms r =
    ((m : Message) × (i : ℕ) × (r ≡ ok (m, k + i)) × IsFirst name ms i m)
    ⊎ ((r ≡ err (text "message not found")) × (message_is_exists name ms ≡ false))

get_message_from-Finds :
    (name : Text) (k : ℕ) (ms : List Message) → Finds name k ms (get_message_from name k ms)
unfolding get_message_from message_is_exists
get_message_from-Finds name k [] = inr (refl, refl)
get_message_from-Finds name k (m ∷ ms) = elim (Bool-cases (m.name == name)) [
  | inl hit ↦ inl (m, 0, rw hit (ap (λ n. ok (m, n)) (omega arith)), (refl, hit))
  | inr miss ↦ rw miss (later miss (get_message_from-Finds name (k + 1) ms))
]
  where
    later :
        {r : Result (Message × ℕ)}
        → (m.name == name) ≡ false
        → Finds name (k + 1) ms r
        → ((x : Message) × (i : ℕ) × (r ≡ ok (x, k + i)) × IsFirst name (m ∷ ms) i x)
          ⊎ ((r ≡ err (text "message not found")) × (message_is_exists name ms ≡ false))
    later miss (inl (x, i, found, first)) =
        inl (x, suc i, found ∙ ap (λ n. ok (x, n)) (omega arith), (miss, first))
    later miss (inr absent) = inr absent

abbrev pub GetOutcome : Text → List Message → Result (Message × ℕ) → Type 0
GetOutcome name ms r =
    ((m : Message) × (i : ℕ) × (r ≡ ok (m, i)) × IsFirst name ms i m)
    ⊎ ((r ≡ err (text "message not found")) × (message_is_exists name ms ≡ false))

-- `getMessage` returns the first message of the name with its index, and fails exactly when
-- `messageIsExists` says that there is none.
pub get_message_lem : (name : Text) (ms : List Message) → GetOutcome name ms (get_message name ms)
unfolding get_message
get_message_lem name ms = elim (get_message_from-Finds name 0 ms) [
  | inl (m, i, found, first) ↦ inl (m, i, found ∙ ap (λ n. ok (m, n)) (omega arith), first)
  | inr absent ↦ inr absent
]

pub IsFirst-get :
    (name : Text) (ms : List Message) (i : ℕ) (m : Message)
    → IsFirst name ms i m
    → (get_elem? ms i ≡ some m) × (m.name ≡ name)
IsFirst-get name [] i m h = absurd h
IsFirst-get name (x ∷ xs) zero m h =
    (ap some h.0, ap (λ (y : Message). y.name) (sym h.0) ∙ (==_iff x.name name).0 h.1)
IsFirst-get name (x ∷ xs) (suc i) m h = IsFirst-get name xs i m h.1

pub IsFirst-exists :
    (name : Text) (ms : List Message) (i : ℕ) (m : Message)
    → IsFirst name ms i m
    → message_is_exists name ms ≡ true
unfolding message_is_exists
IsFirst-exists name [] i m h = absurd h
IsFirst-exists name (x ∷ xs) zero m h = rw h.1
IsFirst-exists name (x ∷ xs) (suc i) m h = rw h.0 (IsFirst-exists name xs i m h.1)

-- What `consumerIsExists` answers, from what `getConsumer` returns.
abbrev pub as_exists : Result (Consumer × ℕ × ℕ) → Bool × ℕ × ℕ
as_exists (ok (c, i, j)) = (true, i, j)
as_exists (err e) = (false, 0, 0)

absent-consumer :
    (name id : Text) (k : ℕ) (ms : List Message)
    → message_is_exists name ms ≡ false
    → consumer_exists_from name id k ms ≡ (false, 0, 0)
unfolding consumer_exists_from message_is_exists
absent-consumer name id k [] h = refl
absent-consumer name id k (m ∷ ms) h = ground (arith, absent-consumer name id (k + 1) ms)

abbrev consumer_from : Text → Text → ℕ → List Message → Result (Consumer × ℕ × ℕ)
consumer_from name id k ms = elim (get_message_from name k ms) [
  | ok (m, i) ↦ elim (find_consumer id 0 m.consumers) [
    | some (c, j) ↦ ok (c, i, j)
    | none ↦ err (text "consumer not found")
  ]
  | err e ↦ err e
]

consumer_from-exists :
    (name id : Text) (k : ℕ) (ms : List Message)
    → DistinctNames ms
    → consumer_exists_from name id k ms ≡ as_exists (consumer_from name id k ms)
unfolding consumer_exists_from get_message_from
consumer_from-exists name id k [] h = refl
consumer_from-exists name id k (m ∷ ms) h = elim (Bool-cases (m.name == name)) [
  | inl hit ↦ elim (Option-cases (find_consumer id 0 m.consumers)) [
    | inl missing ↦
        rw (hit, missing, as_exists, consumer_from)
          (absent-consumer name id (k + 1) ms (rw (← (==_iff m.name name).0 hit) h.0))
    | inr (found, e) ↦ rw (hit, e, as_exists, consumer_from)
  ]
  | inr miss ↦ rw (miss, as_exists, consumer_from) (consumer_from-exists name id (k + 1) ms h.1)
]

-- While no two messages have one name, `consumerIsExists` answers with the indexes at which
-- `getConsumer` finds the consumer, and with false exactly when that fails.
pub consumer_is_exists-get_consumer :
    (name id : Text) (ms : List Message)
    → DistinctNames ms
    → consumer_is_exists name id ms ≡ as_exists (get_consumer name id ms)
unfolding consumer_is_exists get_consumer get_message
consumer_is_exists-get_consumer name id ms h = consumer_from-exists name id 0 ms h
