-- ===== src/Manager/Ends.antt =====
-- How a goroutine of message.go comes to its end after a `delete`.
use wmq.Common.{
  ℕ, suc, ◌≡◌, refl, none, some, List, [], ◌∷◌, zero, Text, ==_refl, get_elem?, set, erase_idx,
}
use wmq.ConcurrentMap.{get, remove}
use wmq.ConcurrentMap.Invariant.{get-set_key, get-remove}
use wmq.Manager.{
  Item, Loop, outer, inner, WorkerPc, checks, reads, writes, connecting, waits, exiting, Worker,
  System, Step, finds_entry, reads_entry, writes_time, connects, delivers, takes_exit,
  removes_entry, misses_entry, Reach, here, next, initial, touch, move, after_write,
}
use wmq.Manager.Keys.{NoWorker, AllHave-erase_idx}
use wmq.Manager.Alive.{IsAlive, Step-IsAlive, reached-IsAlive}
use wmq.Manager.Orphans.{joins}

abbrev at_pc : Text → WorkerPc → Worker
at_pc k pc = record { key = k; pc = pc }

-- The goroutine at place `i` stands here, and its entry has a channel with a command in it.
pub record IsTold (i : ℕ) (k : Text) (item : Item) (n : ℕ) (pc : WorkerPc) (s : System)
    : Type 0 where
  pub alive : IsAlive s
  pub at : get_elem? s.workers i ≡ some (at_pc k pc)
  pub found : get s.table k ≡ some item
  pub command : s.commands item.read_chan ≡ suc n

-- It has ended, and its entry is gone.
abbrev pub HasEnded : Text → System → Type 0
HasEnded k s = (get s.table k ≡ none) × NoWorker k s.workers

-- From here the goroutine may come to its end.
abbrev pub MayEnd : Text → System → Type 0
MayEnd k s = (t : System) × Reach s t × HasEnded k t

pub get_elem?-set :
    {A : Type 0} (xs : List A) (i : ℕ) (x y : A)
    → get_elem? xs i ≡ some x
    → get_elem? (set xs i y) i ≡ some y
get_elem?-set [] i x y e = cc
get_elem?-set (z ∷ xs) zero x y e = refl
get_elem?-set (z ∷ xs) (suc i) x y e = get_elem?-set xs i x y e

-- A step of the goroutine at this place, and no step of the manager or of another goroutine.
abbrev pub IsOwn : ℕ → {s t : System} → Step s t → Type 0
IsOwn i (finds_entry j w l item at pc found) = i ≡ j
IsOwn i (misses_entry j w l at pc missing) = i ≡ j
IsOwn i (reads_entry j w l item at pc found) = i ≡ j
IsOwn i (writes_time j w l item now at pc) = i ≡ j
IsOwn i (connects j w l at pc) = i ≡ j
IsOwn i (delivers j w item l at pc) = i ≡ j
IsOwn i (takes_exit j w item n at pc command) = i ≡ j
IsOwn i (removes_entry j w at pc) = i ≡ j
IsOwn i step = ⊥

-- Runs in which no one else moves.
pub data OwnReach (i : ℕ) : System → System → Type 0 where
  stays : {s : System} → OwnReach i s s
  goes : {s t u : System} (step : Step s t) → IsOwn i step → OwnReach i t u → OwnReach i s u

pub OwnReach-Reach : {i : ℕ} {s t : System} → OwnReach i s t → Reach s t
OwnReach-Reach stays = here
OwnReach-Reach (goes step own rest) = joins (next here step) (OwnReach-Reach rest)

-- It may do so while no one else moves.
abbrev pub MayEndAlone : ℕ → Text → System → Type 0
MayEndAlone i k s = (t : System) × OwnReach i s t × HasEnded k t

steps :
    (i : ℕ) (k : Text) {s t : System} (step : Step s t)
    → IsOwn i step
    → MayEndAlone i k t
    → MayEndAlone i k s
steps i k step own (u, r, ended) = (u, goes step own r, ended)

-- The goroutine is not about to write an entry that it has read.
abbrev pub NotWriting : WorkerPc → Type 0
NotWriting (writes l item) = ⊥
NotWriting pc = Unit

module _ (i : ℕ) (k : Text) (n : ℕ) where
  pub moves :
      (item : Item) (pc pc' : WorkerPc) (s : System)
      → IsTold i k item n pc s
      → Step s (move s i (at_pc k pc) pc')
      → IsTold i k item n pc' (move s i (at_pc k pc) pc')
  moves item pc pc' s h step = record {
    alive = Step-IsAlive h.alive step;
    at = get_elem?-set s.workers i (at_pc k pc) (at_pc k pc') h.at;
    found = h.found;
    command = h.command;
  }

  pub exiting-MayEndAlone :
      (s : System) → IsAlive s → get_elem? s.workers i ≡ some (at_pc k exiting) → MayEndAlone i k s
  exiting-MayEndAlone s a at = (
    record s { table = remove s.table k; workers = erase_idx s.workers i },
    goes (removes_entry i (at_pc k exiting) at refl) refl stays,
    (
      rw (get-remove s.table k a.sharded k, ==_refl k) refl,
      (AllHave-erase_idx s.table s.workers i (at_pc k exiting) a.sharded at a.have).1,
    ),
  )

  -- It waits with the entry that the map has.
  waits-MayEndAlone :
      (item : Item) (s : System) → IsTold i k item n (waits item) s → MayEndAlone i k s
  waits-MayEndAlone item s h =
      let step = takes_exit i (at_pc k (waits item)) item n h.at refl h.command in
      steps i k step refl (
        exiting-MayEndAlone _ (Step-IsAlive h.alive step)
          (get_elem?-set s.workers i (at_pc k (waits item)) (at_pc k exiting) h.at))

  -- The head of a loop, up to the point where the active time is written.
  writes-MayEndAlone :
      (l : Loop) (item : Item)
      → ((t : System)
          → IsTold i k (touch item 0) n (after_write l (touch item 0)) t
          → MayEndAlone i k t)
      → (s : System) → IsTold i k item n (writes l item) s
      → MayEndAlone i k s
  writes-MayEndAlone l item rest s h =
      let step = writes_time i (at_pc k (writes l item)) l item 0 h.at refl in
      steps i k step refl (
        rest _ (record {
          alive = Step-IsAlive h.alive step;
          at =
              get_elem?-set s.workers i (at_pc k (writes l item))
                (at_pc k (after_write l (touch item 0))) h.at;
          found = rw (get-set_key s.table k h.alive.sharded (touch item 0) k, ==_refl k) refl;
          command = h.command;
        }))

  reads-MayEndAlone :
      (l : Loop) (item : Item)
      → ((t : System)
          → IsTold i k (touch item 0) n (after_write l (touch item 0)) t
          → MayEndAlone i k t)
      → (s : System) → IsTold i k item n (reads l) s
      → MayEndAlone i k s
  reads-MayEndAlone l item rest s h =
      let step = reads_entry i (at_pc k (reads l)) l item h.at refl h.found in
      steps i k step refl
        (writes-MayEndAlone l item rest _ (moves item (reads l) (writes l item) s h step))

  checks-MayEndAlone :
      (l : Loop) (item : Item)
      → ((t : System)
          → IsTold i k (touch item 0) n (after_write l (touch item 0)) t
          → MayEndAlone i k t)
      → (s : System) → IsTold i k item n (checks l) s
      → MayEndAlone i k s
  checks-MayEndAlone l item rest s h =
      let step = finds_entry i (at_pc k (checks l)) l item h.at refl h.found in
      steps i k step refl
        (reads-MayEndAlone l item rest _ (moves item (checks l) (reads l) s h step))

  pub inner-MayEndAlone :
      (item : Item) (s : System) → IsTold i k item n (checks inner) s → MayEndAlone i k s
  inner-MayEndAlone item = checks-MayEndAlone inner item (waits-MayEndAlone (touch item 0))

  connecting-MayEndAlone :
      (item : Item) (s : System) → IsTold i k item n connecting s → MayEndAlone i k s
  connecting-MayEndAlone item s h =
      let step = connects i (at_pc k connecting) inner h.at refl in
      steps i k step refl (inner-MayEndAlone item _ (moves item connecting (checks inner) s h step))

  told-MayEndAlone :
      (pc : WorkerPc) (item : Item) (s : System)
      → NotWriting pc
      → IsTold i k item n pc s
      → MayEndAlone i k s
  told-MayEndAlone (checks inner) item s free h = inner-MayEndAlone item s h
  told-MayEndAlone (checks outer) item s free h =
      checks-MayEndAlone outer item (connecting-MayEndAlone (touch item 0)) s h
  told-MayEndAlone (reads inner) item s free h =
      reads-MayEndAlone inner item (waits-MayEndAlone (touch item 0)) s h
  told-MayEndAlone (reads outer) item s free h =
      reads-MayEndAlone outer item (connecting-MayEndAlone (touch item 0)) s h
  told-MayEndAlone (writes l held) item s free h = absurd free
  told-MayEndAlone connecting item s free h = connecting-MayEndAlone item s h
  told-MayEndAlone (waits held) item s free h =
      let step = delivers i (at_pc k (waits held)) held inner h.at refl in
      steps i k step refl
        (inner-MayEndAlone item _ (moves item (waits held) (checks inner) s h step))
  told-MayEndAlone exiting item s free h = exiting-MayEndAlone s h.alive h.at

-- When a command has been sent to the channel of a consumer's entry, its goroutine can come to its end from wherever it
-- stands, by its own steps alone, while neither the manager nor another goroutine moves, unless it is just about
-- to write back an entry that it has read; its entry is gone then.
pub told_may-End :
    {s : System} (i : ℕ) (w : Worker) (item : Item) (n : ℕ)
    → Reach initial s
    → get_elem? s.workers i ≡ some w
    → get s.table w.key ≡ some item
    → s.commands item.read_chan ≡ suc n
    → NotWriting w.pc
    → MayEndAlone i w.key s
told_may-End {s} i w item n r at found command free =
    told-MayEndAlone i w.key n w.pc item s free
      (record { alive = reached-IsAlive r; at = at; found = found; command = command })
