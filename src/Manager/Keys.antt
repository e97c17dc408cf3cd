-- ===== src/Manager/Keys.antt =====
-- The keys of the goroutines of message.go and their entries in `wrapedConsumers`.
use wmq.Common.{
  ℕ, zero, suc, ◌≡◌, ◌≢◌, sym, ap, ◌∙◌, inl, inr, true, Option, none, some, List, [], ◌∷◌, ◌++◌,
  Text, get_elem?, set, erase_idx, is_some, ◌==◌, ==_refl, ==_of_ne, Bool-cases,
}
use wmq.ConcurrentMap.{ConcurrentMap, get, set_key, remove}
use wmq.ConcurrentMap.Invariant.{IsSharded, get-set_key, get-remove}
use wmq.Manager.{Item, Worker}

-- No goroutine of the key.
abbrev pub NoWorker : Text → List Worker → Type 0
NoWorker k [] = Unit
NoWorker k (w ∷ ws) = (w.key ≢ k) × NoWorker k ws

-- Every goroutine has a key of its own, with an entry in the map.
abbrev pub AllHave : ConcurrentMap Item → List Worker → Type 0
AllHave table [] = Unit
AllHave table (w ∷ ws) = (is_some (get table w.key) ≡ true) × NoWorker w.key ws × AllHave table ws

abbrev pub key_or : Option Worker → Text
key_or none = []
key_or (some w) = w.key

-- Every key that has an entry in the first map has one in the second.
abbrev pub Grows : ConcurrentMap Item → ConcurrentMap Item → Type 0
Grows t t' = (k : Text) → is_some (get t k) ≡ true → is_some (get t' k) ≡ true

pub set_key-Grows :
    (t : ConcurrentMap Item) (k : Text) (item : Item) → IsSharded t → Grows t (set_key t k item)
set_key-Grows t k item h j old = elim (Bool-cases (k == j)) [
  | inl same ↦ rw (get-set_key t k h item j, same)
  | inr other ↦ rw (get-set_key t k h item j, other) old
]

pub set_key-has :
    (t : ConcurrentMap Item) (k : Text) (item : Item)
    → IsSharded t
    → is_some (get (set_key t k item) k) ≡ true
set_key-has t k item h = rw (get-set_key t k h item k, ==_refl k)

pub remove-has :
    (t : ConcurrentMap Item) (k j : Text)
    → IsSharded t
    → k ≢ j
    → is_some (get t j) ≡ true
    → is_some (get (remove t k) j) ≡ true
remove-has t k j h ne old = rw (get-remove t k h j, ==_of_ne k j ne) old

pub AllHave-Grows :
    (t t' : ConcurrentMap Item) (ws : List Worker) → Grows t t' → AllHave t ws → AllHave t' ws
AllHave-Grows t t' [] g h = tt
AllHave-Grows t t' (w ∷ ws) g h = (g w.key h.0, h.1, AllHave-Grows t t' ws g h.2)

pub NoWorker-of_none :
    (t : ConcurrentMap Item) (k : Text) (ws : List Worker)
    → get t k ≡ none
    → AllHave t ws
    → NoWorker k ws
NoWorker-of_none t k [] e h = tt
NoWorker-of_none t k (w ∷ ws) e h =
    (λ same. cc (ap is_some e, rw same at h.0), NoWorker-of_none t k ws e h.2)

pub NoWorker-set :
    (k : Text) (ws : List Worker) (i : ℕ) (w w' : Worker)
    → get_elem? ws i ≡ some w
    → w'.key ≡ w.key
    → NoWorker k ws
    → NoWorker k (set ws i w')
NoWorker-set k [] i w w' e same h = tt
NoWorker-set k (x ∷ ws) zero w w' e same h = (λ p. h.0 (cc (e, same, p)), h.1)
NoWorker-set k (x ∷ ws) (suc i) w w' e same h = (h.0, NoWorker-set k ws i w w' e same h.1)

pub AllHave-set :
    (t : ConcurrentMap Item) (ws : List Worker) (i : ℕ) (w w' : Worker)
    → get_elem? ws i ≡ some w
    → w'.key ≡ w.key
    → AllHave t ws
    → AllHave t (set ws i w')
AllHave-set t [] i w w' e same h = tt
AllHave-set t (x ∷ ws) zero w w' e same h =
    let key = same ∙ sym (ap key_or e) in (rw key h.0, rw key h.1, h.2)
AllHave-set t (x ∷ ws) (suc i) w w' e same h =
    (h.0, NoWorker-set x.key ws i w w' e same h.1, AllHave-set t ws i w w' e same h.2)

pub NoWorker-append :
    (k : Text) (ws : List Worker) (w : Worker)
    → w.key ≢ k
    → NoWorker k ws
    → NoWorker k (ws ++ w ∷ [])
NoWorker-append k [] w ne h = (ne, tt)
NoWorker-append k (x ∷ ws) w ne h = (h.0, NoWorker-append k ws w ne h.1)

pub AllHave-append :
    (t : ConcurrentMap Item) (ws : List Worker) (w : Worker)
    → is_some (get t w.key) ≡ true
    → NoWorker w.key ws
    → AllHave t ws
    → AllHave t (ws ++ w ∷ [])
AllHave-append t [] w has new h = (has, tt, tt)
AllHave-append t (x ∷ ws) w has new h =
    (h.0, NoWorker-append x.key ws w (λ e. new.0 (sym e)) h.1, AllHave-append t ws w has new.1 h.2)

pub AllHave-get :
    (t : ConcurrentMap Item) (ws : List Worker) (i : ℕ) (w : Worker)
    → get_elem? ws i ≡ some w
    → AllHave t ws
    → is_some (get t w.key) ≡ true
AllHave-get t [] i w e h = cc
AllHave-get t (x ∷ ws) zero w e h = rw (ap key_or e) at h.0
AllHave-get t (x ∷ ws) (suc i) w e h = AllHave-get t ws i w e h.2

pub NoWorker-get :
    (k : Text) (ws : List Worker) (i : ℕ) (w : Worker)
    → get_elem? ws i ≡ some w
    → NoWorker k ws
    → w.key ≢ k
NoWorker-get k [] i w e h = cc
NoWorker-get k (x ∷ ws) zero w e h = λ p. h.0 (cc (e, p))
NoWorker-get k (x ∷ ws) (suc i) w e h = NoWorker-get k ws i w e h.1

pub NoWorker-erase_idx :
    (k : Text) (ws : List Worker) (i : ℕ) → NoWorker k ws → NoWorker k (erase_idx ws i)
NoWorker-erase_idx k [] i h = tt
NoWorker-erase_idx k (x ∷ ws) zero h = h.1
NoWorker-erase_idx k (x ∷ ws) (suc i) h = (h.0, NoWorker-erase_idx k ws i h.1)

AllHave-remove :
    (t : ConcurrentMap Item) (k : Text) (ws : List Worker)
    → IsSharded t
    → NoWorker k ws
    → AllHave t ws
    → AllHave (remove t k) ws
AllHave-remove t k [] sh new h = tt
AllHave-remove t k (x ∷ ws) sh new h =
    (remove-has t k x.key sh (λ p. new.0 (sym p)) h.0, h.1, AllHave-remove t k ws sh new.1 h.2)

-- When a goroutine removes its entry and ends, the others keep theirs, and none of its key is left.
pub AllHave-erase_idx :
    (t : ConcurrentMap Item) (ws : List Worker) (i : ℕ) (w : Worker)
    → IsSharded t
    → get_elem? ws i ≡ some w
    → AllHave t ws
    → AllHave (remove t w.key) (erase_idx ws i) × NoWorker w.key (erase_idx ws i)
AllHave-erase_idx t [] i w sh e h = cc
AllHave-erase_idx t (x ∷ ws) zero w sh e h =
    rw (← ap key_or e) (AllHave-remove t x.key ws sh h.1 h.2, h.1)
AllHave-erase_idx t (x ∷ ws) (suc i) w sh e h =
    let (rest, none_left) = AllHave-erase_idx t ws i w sh e h.2 in
    let ne = NoWorker-get x.key ws i w e h.1 in
    (
      (remove-has t w.key x.key sh ne h.0, NoWorker-erase_idx x.key ws i h.1, rest),
      ((λ p. ne (sym p)), none_left),
    )
