-- ===== src/Registry/Directory/Views.antt =====
-- How the updates of the message list (message.go) change the directory.
use wmq.Common.{
  ℕ, zero, suc, ◌+◌, ◌≡◌, refl, sym, ap, ◌∙◌, inl, inr, true, false, Option, none, some, List, [],
  ◌∷◌, ◌++◌, Text, arith, ◌==◌, ==_iff, if◌then◌else◌, set, erase_idx, Bool-cases,
}
use wmq.Registry.{Message, Consumer, message_is_exists, find_consumer}
use wmq.Registry.Lookups.{DistinctNames, IsFirst}
use wmq.Registry.Directory.{directory, change_first}

pub directory-absent :
    (name : Text) (ms : List Message) → message_is_exists name ms ≡ false → directory ms name ≡ none
unfolding directory message_is_exists
directory-absent name [] h = refl
directory-absent name (x ∷ xs) h = ground (arith, directory-absent name xs)

pub directory-IsFirst :
    (name : Text) (ms : List Message) (i : ℕ) (m : Message)
    → IsFirst name ms i m
    → directory ms name ≡ some m
unfolding directory
directory-IsFirst name [] i m h = absurd h
directory-IsFirst name (x ∷ xs) zero m h = rw h.1 (ap some h.0)
directory-IsFirst name (x ∷ xs) (suc i) m h = rw h.0 (directory-IsFirst name xs i m h.1)

pub directory-append :
    (ms : List Message) (m : Message) (j : Text)
    → message_is_exists m.name ms ≡ false
    → directory (ms ++ m ∷ []) j ≡ (if m.name == j then some m else directory ms j)
unfolding directory message_is_exists
directory-append [] m j h = refl
directory-append (x ∷ xs) m j h = elim (Bool-cases (x.name == m.name)) [
  | inl same ↦ absurd (true-false (rw same at h))
  | inr other ↦ elim (Bool-cases (x.name == j)) [
    | inl hit ↦ elim (Bool-cases (m.name == j)) [
      | inl both ↦ absurd (
          true-false (
            sym
              ((==_iff x.name m.name).1 ((==_iff x.name j).0 hit ∙ sym ((==_iff m.name j).0 both)))
            ∙ other))
      | inr apart ↦ rw (hit, apart)
    ]
    | inr miss ↦ rw miss (directory-append xs m j (rw other at h))
  ]
]
  where
    true-false : true ≡ false → ⊥
    true-false e = cc

pub directory-set :
    (name j : Text) (ms : List Message) (i : ℕ) (old m : Message)
    → IsFirst name ms i old
    → m.name ≡ name
    → directory (set ms i m) j ≡ (if name == j then some m else directory ms j)
unfolding directory
directory-set name j [] i old m h e = absurd h
directory-set name j (x ∷ xs) zero old m h e =
    rw (e, (==_iff x.name name).0 h.1)
      (elim (Bool-cases (name == j)) [ inl hit ↦ rw hit | inr miss ↦ rw miss ])
directory-set name j (x ∷ xs) (suc i) old m h e = ground (
  arith,
  ==_iff x.name name,
  ==_iff x.name j,
  ==_iff name j,
  directory-set name j xs i old m h.1 e,
)

pub directory-erase_idx :
    (name j : Text) (ms : List Message) (i : ℕ) (m : Message)
    → IsFirst name ms i m
    → DistinctNames ms
    → directory (erase_idx ms i) j ≡ (if name == j then none else directory ms j)
unfolding directory
directory-erase_idx name j [] i m h d = absurd h
directory-erase_idx name j (x ∷ xs) zero m h d =
    let same : x.name ≡ name = (==_iff x.name name).0 h.1 in
    rw (← same) (elim (Bool-cases (x.name == j)) [
      | inl hit ↦ rw hit (rw (← (==_iff x.name j).0 hit) (directory-absent x.name xs d.0))
      | inr miss ↦ rw miss
    ])
directory-erase_idx name j (x ∷ xs) (suc i) m h d = ground (
  arith,
  ==_iff x.name name,
  ==_iff x.name j,
  ==_iff name j,
  directory-erase_idx name j xs i m h.1 d.1,
)

-- What `getConsumer` finds, and what `set` and `erase_idx` at that place come to.
pub change_first-none :
    (id : Text) (f : Consumer → List Consumer → List Consumer) (k : ℕ) (cs : List Consumer)
    → find_consumer id k cs ≡ none
    → change_first id f cs ≡ none
unfolding find_consumer
change_first-none id f k [] h = refl
change_first-none id f k (x ∷ xs) h = elim (Bool-cases (x.id == id)) [
  | inl hit ↦ absurd (some-none (rw hit at h))
  | inr miss ↦ rw (miss, change_first-none id f (k + 1) xs (rw miss at h))
]
  where
    some-none : {A : Type 0} {a : A} → some a ≡ none → ⊥
    some-none e = cc

-- The first consumer of the identifier stands here.
abbrev FoundAt : Text → List Consumer → ℕ → Type 0
FoundAt id [] n = ⊥
FoundAt id (x ∷ xs) zero = (x.id == id) ≡ true
FoundAt id (x ∷ xs) (suc n) = ((x.id == id) ≡ false) × FoundAt id xs n

abbrev some_at : Consumer → ℕ → Option (Consumer × ℕ)
some_at c n = some (c, n)

find_consumer-FoundAt :
    (id : Text) (k : ℕ) (cs : List Consumer) (old : Consumer) (p : ℕ)
    → find_consumer id k cs ≡ some (old, p)
    → (n : ℕ) × (p ≡ k + n) × FoundAt id cs n
unfolding find_consumer
find_consumer-FoundAt id k [] old p h = cc
find_consumer-FoundAt id k (x ∷ xs) old p h = elim (Bool-cases (x.id == id)) [
  | inl hit ↦ (0, omega (arith, at_eq (rw hit at h)), hit)
  | inr miss ↦
      let (n, e, found) = find_consumer-FoundAt id (k + 1) xs old p (rw miss at h) in
      (suc n, omega (arith, e), (miss, found))
]
  where
    at_eq : {c d : Consumer} {n m : ℕ} → some_at c n ≡ some_at d m → m ≡ n
    at_eq e = cc

change_first-set-FoundAt :
    (id : Text) (cs : List Consumer) (c : Consumer) (n : ℕ)
    → FoundAt id cs n
    → change_first id (λ x rest. c ∷ rest) cs ≡ some (set cs n c)
change_first-set-FoundAt id [] c n h = absurd h
change_first-set-FoundAt id (x ∷ xs) c zero h = rw h
change_first-set-FoundAt id (x ∷ xs) c (suc n) h = rw (h.0, change_first-set-FoundAt id xs c n h.1)

change_first-erase_idx-FoundAt :
    (id : Text) (cs : List Consumer) (n : ℕ)
    → FoundAt id cs n
    → change_first id (λ x rest. rest) cs ≡ some (erase_idx cs n)
change_first-erase_idx-FoundAt id [] n h = absurd h
change_first-erase_idx-FoundAt id (x ∷ xs) zero h = rw h
change_first-erase_idx-FoundAt id (x ∷ xs) (suc n) h =
    rw (h.0, change_first-erase_idx-FoundAt id xs n h.1)

pub change_first-set :
    (id : Text) (cs : List Consumer) (old c : Consumer) (p : ℕ)
    → find_consumer id 0 cs ≡ some (old, p)
    → change_first id (λ x rest. c ∷ rest) cs ≡ some (set cs p c)
change_first-set id cs old c p h =
    let (n, e, found) = find_consumer-FoundAt id 0 cs old p h in
    change_first-set-FoundAt id cs c n found ∙ ap (λ m. some (set cs m c)) (omega (arith, e))

pub change_first-erase_idx :
    (id : Text) (cs : List Consumer) (old : Consumer) (p : ℕ)
    → find_consumer id 0 cs ≡ some (old, p)
    → change_first id (λ x rest. rest) cs ≡ some (erase_idx cs p)
change_first-erase_idx id cs old p h =
    let (n, e, found) = find_consumer-FoundAt id 0 cs old p h in
    change_first-erase_idx-FoundAt id cs n found
    ∙ ap (λ m. some (erase_idx cs m)) (omega (arith, e))
