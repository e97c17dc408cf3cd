-- ===== src/Registry/Names.antt =====
-- How the updates of the message list (message.go) change what `getMessage` finds.
use wmq.Common.{
  ℕ, zero, suc, ◌+◌, ◌≡◌, refl, ap, ◌∙◌, inl, inr, true, false, List, [], ◌∷◌, ◌++◌, Text, arith,
  ◌==◌, ==_iff, ==_refl, if◌then◌else◌, set, erase_idx, length, ok, Bool-cases,
}
use wmq.Registry.{Message, message_is_exists, get_message_from, get_message}
use wmq.Registry.Lookups.{DistinctNames, IsFirst}

pub exists-set :
    (name j : Text) (ms : List Message) (i : ℕ) (old m : Message)
    → IsFirst name ms i old
    → m.name ≡ name
    → message_is_exists j (set ms i m) ≡ message_is_exists j ms
unfolding message_is_exists
exists-set name j [] i old m first e = refl
exists-set name j (x ∷ xs) zero old m first e = rw (e, (==_iff x.name name).0 first.1)
exists-set name j (x ∷ xs) (suc i) old m first e = rw (exists-set name j xs i old m first.1 e)

pub set-DistinctNames :
    (name : Text) (ms : List Message) (i : ℕ) (old m : Message)
    → IsFirst name ms i old
    → m.name ≡ name
    → DistinctNames ms
    → DistinctNames (set ms i m)
set-DistinctNames name [] i old m first e h = tt
set-DistinctNames name (x ∷ xs) zero old m first e h =
    (rw (e, ← (==_iff x.name name).0 first.1) h.0, h.1)
set-DistinctNames name (x ∷ xs) (suc i) old m first e h = (
  exists-set name x.name xs i old m first.1 e ∙ h.0,
  set-DistinctNames name xs i old m first.1 e h.1,
)

pub exists-erase_idx :
    (j : Text) (ms : List Message) (i : ℕ)
    → message_is_exists j ms ≡ false
    → message_is_exists j (erase_idx ms i) ≡ false
unfolding message_is_exists
exists-erase_idx j [] i h = refl
exists-erase_idx j (x ∷ xs) zero h = ground arith
exists-erase_idx j (x ∷ xs) (suc i) h = ground (arith, exists-erase_idx j xs i)

pub erase_idx-DistinctNames :
    (ms : List Message) (i : ℕ) → DistinctNames ms → DistinctNames (erase_idx ms i)
erase_idx-DistinctNames [] i h = tt
erase_idx-DistinctNames (x ∷ xs) zero h = h.1
erase_idx-DistinctNames (x ∷ xs) (suc i) h =
    (exists-erase_idx x.name xs i h.0, erase_idx-DistinctNames xs i h.1)

-- After the removal of the message of a name there is none, and every other name is as before.
pub erase_idx-exists :
    (name j : Text) (ms : List Message) (i : ℕ) (m : Message)
    → IsFirst name ms i m
    → DistinctNames ms
    → message_is_exists j (erase_idx ms i) ≡ (if name == j then false else message_is_exists j ms)
unfolding message_is_exists
erase_idx-exists name j [] i m first h = absurd first
erase_idx-exists name j (x ∷ xs) zero m first h =
    let same : x.name ≡ name = (==_iff x.name name).0 first.1 in
    rw (← same) (elim (Bool-cases (x.name == j)) [
      | inl hit ↦ rw hit (rw (← (==_iff x.name j).0 hit) h.0)
      | inr miss ↦ rw miss
    ])
erase_idx-exists name j (x ∷ xs) (suc i) m first h = ground (
  arith,
  ==_iff x.name name,
  ==_iff x.name j,
  ==_iff name j,
  erase_idx-exists name j xs i m first.1 h.1,
)

pub exists-append :
    (j : Text) (ms : List Message) (m : Message)
    → message_is_exists j (ms ++ m ∷ []) ≡ (if message_is_exists j ms then true else m.name == j)
unfolding message_is_exists
exists-append j [] m = ground arith
exists-append j (x ∷ xs) m = ground (arith, exists-append j xs m)

pub append-DistinctNames :
    (ms : List Message) (m : Message)
    → message_is_exists m.name ms ≡ false
    → DistinctNames ms
    → DistinctNames (ms ++ m ∷ [])
unfolding message_is_exists
append-DistinctNames [] m new h = (refl, tt)
append-DistinctNames (x ∷ xs) m new h = (
  ground (arith, exists-append x.name xs m, ==_iff x.name m.name, ==_iff m.name x.name),
  append-DistinctNames xs m (ground arith) h.1,
)

get_message_from-append :
    (j : Text) (k : ℕ) (ms : List Message) (m : Message)
    → message_is_exists j ms ≡ true
    → get_message_from j k (ms ++ m ∷ []) ≡ get_message_from j k ms
unfolding get_message_from message_is_exists
get_message_from-append j k [] m h = cc
get_message_from-append j k (x ∷ xs) m h = ground (arith, get_message_from-append j (k + 1) xs m)

-- A message added at the end hides none.
pub get_message-append :
    (j : Text) (ms : List Message) (m : Message)
    → message_is_exists j ms ≡ true
    → get_message j (ms ++ m ∷ []) ≡ get_message j ms
unfolding get_message
get_message-append j ms m h = get_message_from-append j 0 ms m h

get_message_from-new :
    (k : ℕ) (ms : List Message) (m : Message)
    → message_is_exists m.name ms ≡ false
    → get_message_from m.name k (ms ++ m ∷ []) ≡ ok (m, k + length ms)
unfolding get_message_from message_is_exists
get_message_from-new k [] m h = rw (==_refl m.name) (ap (λ n. ok (m, n)) (omega arith))
get_message_from-new k (x ∷ xs) m h = ground (arith, get_message_from-new (k + 1) xs m)

pub get_message-new :
    (ms : List Message) (m : Message)
    → message_is_exists m.name ms ≡ false
    → get_message m.name (ms ++ m ∷ []) ≡ ok (m, length ms)
unfolding get_message
get_message-new ms m h = get_message_from-new 0 ms m h ∙ ap (λ n. ok (m, n)) (omega arith)

get_message_from-set :
    (name j : Text) (k : ℕ) (ms : List Message) (i : ℕ) (old m : Message)
    → IsFirst name ms i old
    → m.name ≡ name
    → get_message_from j k (set ms i m)
      ≡ (if name == j then ok (m, k + i) else get_message_from j k ms)
unfolding get_message_from
get_message_from-set name j k [] i old m first e = absurd first
get_message_from-set name j k (x ∷ xs) zero old m first e =
    ground (arith, (==_iff x.name name).0 first.1)
get_message_from-set name j k (x ∷ xs) (suc i) old m first e = ground (
  arith,
  ==_iff x.name name,
  ==_iff x.name j,
  ==_iff name j,
  get_message_from-set name j (k + 1) xs i old m first.1 e,
)

-- After the message at its index is replaced by one of its name, that one is found there, and
-- every other name as before.
pub get_message-set :
    (name j : Text) (ms : List Message) (i : ℕ) (old m : Message)
    → IsFirst name ms i old
    → m.name ≡ name
    → get_message j (set ms i m) ≡ (if name == j then ok (m, i) else get_message j ms)
unfolding get_message
get_message-set name j ms i old m first e =
    get_message_from-set name j 0 ms i old m first e
    ∙ ap (λ n. if name == j then ok (m, n) else get_message_from j 0 ms) (omega arith)
