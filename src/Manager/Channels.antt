-- ===== src/Manager/Channels.antt =====
-- The channels of the entries of `wrapedConsumers` (message.go): each belongs to the consumer key for which it
-- was made, in the map and in the hands of the goroutines.
use wmq.Common.{
  subst, ℕ, zero, suc, ◌≡◌, ◌<◌, ◌≤◌, ◌∙◌, inl, inr, none, some, List, [], ◌∷◌, ◌++◌, Text,
  get_elem?, set, erase_idx, ◌==◌, ==_iff, Bool-cases, arith,
}
use wmq.ConcurrentMap.{ConcurrentMap, get, set_key, remove}
use wmq.ConcurrentMap.Invariant.{IsSharded, get-set_key, get-remove}
use wmq.Manager.{
  Item, WorkerPc, checks, reads, writes, connecting, waits, exiting, Worker, ManagerPc, idle,
  looked_up, replaces, starts, sends,
}
use wmq.Registry.{get_consumer_key}

some-injective : {A : Type 0} {x y : A} → some x ≡ some y → x ≡ y
some-injective e = cc

pub none-some : {A : Type 0} {x : A} → none ≡ some x → ⊥
none-some e = cc

-- A predicate of each goroutine.
abbrev pub AllWorkers : (Worker → Type 0) → List Worker → Type 0
AllWorkers P [] = Unit
AllWorkers P (w ∷ ws) = P w × AllWorkers P ws

module _ (P : Worker → Type 0) where
  pub AllWorkers-get :
      (ws : List Worker) (i : ℕ) (w : Worker) → get_elem? ws i ≡ some w → AllWorkers P ws → P w
  AllWorkers-get [] i w e h = cc
  AllWorkers-get (x ∷ ws) zero w e h = subst P (some-injective e) h.0
  AllWorkers-get (x ∷ ws) (suc i) w e h = AllWorkers-get ws i w e h.1

  pub AllWorkers-set :
      (ws : List Worker) (i : ℕ) (w : Worker) → P w → AllWorkers P ws → AllWorkers P (set ws i w)
  AllWorkers-set [] i w p h = tt
  AllWorkers-set (x ∷ ws) zero w p h = (p, h.1)
  AllWorkers-set (x ∷ ws) (suc i) w p h = (h.0, AllWorkers-set ws i w p h.1)

  pub AllWorkers-append :
      (ws : List Worker) (w : Worker) → P w → AllWorkers P ws → AllWorkers P (ws ++ w ∷ [])
  AllWorkers-append [] w p h = (p, tt)
  AllWorkers-append (x ∷ ws) w p h = (h.0, AllWorkers-append ws w p h.1)

  pub AllWorkers-erase_idx :
      (ws : List Worker) (i : ℕ) → AllWorkers P ws → AllWorkers P (erase_idx ws i)
  AllWorkers-erase_idx [] i h = tt
  AllWorkers-erase_idx (x ∷ ws) zero h = h.1
  AllWorkers-erase_idx (x ∷ ws) (suc i) h = (h.0, AllWorkers-erase_idx ws i h.1)

pub AllWorkers-mono :
    (P Q : Worker → Type 0) (ws : List Worker)
    → ((w : Worker) → P w → Q w)
    → AllWorkers P ws
    → AllWorkers Q ws
AllWorkers-mono P Q [] f h = tt
AllWorkers-mono P Q (w ∷ ws) f h = (f w h.0, AllWorkers-mono P Q ws f h.1)

-- The channel of an item was made for the key, and before the number of the next one.
abbrev pub Owns : (ℕ → Text) → ℕ → Text → Item → Type 0
Owns owner n k item = (owner item.read_chan ≡ k) × (item.read_chan < n)

module _ (owner : ℕ → Text) (n : ℕ) where
  -- The items in the map, in the hands of a goroutine, and in those of the manager.
  abbrev pub Entries : ConcurrentMap Item → Type 0
  Entries t = (k : Text) (item : Item) → get t k ≡ some item → Owns owner n k item

  abbrev pub HeldAt : Text → WorkerPc → Type 0
  HeldAt k (writes l item) = Owns owner n k item
  HeldAt k (waits item) = Owns owner n k item
  HeldAt k pc = Unit

  abbrev pub Held : Worker → Type 0
  Held w = HeldAt w.key w.pc

  abbrev pub Looked : ManagerPc → Type 0
  Looked (looked_up c m (some item)) = Owns owner n (get_consumer_key m c) item
  Looked pc = Unit

  pub set_key-Entries :
      (t : ConcurrentMap Item) (k : Text) (item : Item)
      → IsSharded t
      → Owns owner n k item
      → Entries t
      → Entries (set_key t k item)
  set_key-Entries t k item h own e j found other = elim (Bool-cases (k == j)) [
    | inl same ↦
        subst (λ x. Owns owner n x found) ((==_iff k j).0 same)
          (subst (Owns owner n k) (some-injective (rw (get-set_key t k h item j, same) at other))
            own)
    | inr differ ↦ e j found (rw (get-set_key t k h item j, differ) at other)
  ]

  pub remove-Entries :
      (t : ConcurrentMap Item) (k : Text) → IsSharded t → Entries t → Entries (remove t k)
  remove-Entries t k h e j found other = elim (Bool-cases (k == j)) [
    | inl same ↦ absurd (none-some (rw (get-remove t k h j, same) at other))
    | inr differ ↦ e j found (rw (get-remove t k h j, differ) at other)
  ]

-- Owners that agree below the first number.
module _ (owner owner' : ℕ → Text) (n n' : ℕ) (more : n ≤ n')
    (same : (ch : ℕ) → ch < n → owner' ch ≡ owner ch) where
  pub Owns-mono : (k : Text) (item : Item) → Owns owner n k item → Owns owner' n' k item
  Owns-mono k item (own, old) = (same item.read_chan old ∙ own, omega arith)

  pub HeldAt-mono : (k : Text) (pc : WorkerPc) → HeldAt owner n k pc → HeldAt owner' n' k pc
  HeldAt-mono k (checks l) h = tt
  HeldAt-mono k (reads l) h = tt
  HeldAt-mono k (writes l item) h = Owns-mono k item h
  HeldAt-mono k connecting h = tt
  HeldAt-mono k (waits item) h = Owns-mono k item h
  HeldAt-mono k exiting h = tt

  pub Looked-mono : (pc : ManagerPc) → Looked owner n pc → Looked owner' n' pc
  Looked-mono (looked_up c m (some item)) h = Owns-mono (get_consumer_key m c) item h
  Looked-mono (looked_up c m none) h = tt
  Looked-mono idle h = tt
  Looked-mono (replaces c m) h = tt
  Looked-mono (starts k) h = tt
  Looked-mono (sends ch) h = tt
