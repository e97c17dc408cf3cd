-- ===== src/Manager/Alive.antt =====
-- What holds however the goroutines of message.go interleave: a consumer's goroutine is the only
-- one of its key, and finds its entry in the map as long as it lives.
use wmq.Common.{ℕ, ◌≡◌, refl, true, Option, none, some, Text, get_elem?, set, erase_idx, is_some}
use wmq.ConcurrentMap.{ConcurrentMap, get, remove}
use wmq.ConcurrentMap.Invariant.{IsSharded, new-IsSharded, set_key-IsSharded, remove-IsSharded}
use wmq.Registry.{Message, Consumer, get_consumer_key}
use wmq.Manager.Keys.{
  NoWorker, AllHave, Grows, set_key-Grows, set_key-has, remove-has, AllHave-Grows, NoWorker-of_none,
  NoWorker-set, AllHave-set, AllHave-append, AllHave-get, NoWorker-get, NoWorker-erase_idx,
  AllHave-erase_idx,
}
use wmq.Manager.{
  Item, WorkerPc, checks, reads, writes, exiting, Worker, ManagerPc, idle, looked_up, replaces,
  starts, sends, System, Step, gets_update, touches, replaces_entry, inserts_entry, starts_worker,
  gets_delete, sends_exit, finds_entry, misses_entry, reads_entry, writes_time, connects, delivers,
  takes_exit, removes_entry, Reach, here, next, initial,
}

-- What the manager may rely on from its lookup to the start of the goroutine.
abbrev pub ManagerSafe : System → ManagerPc → Type 0
ManagerSafe s (looked_up c m none) = NoWorker (get_consumer_key m c) s.workers
ManagerSafe s (starts k) = NoWorker k s.workers × (is_some (get s.table k) ≡ true)
ManagerSafe s _ = Unit

pub record IsAlive (s : System) : Type 0 where
  pub sharded : IsSharded s.table
  pub have : AllHave s.table s.workers
  pub manager_safe : ManagerSafe s s.manager

ManagerSafe-mono :
    (s t : System)
    → ((k : Text) → NoWorker k s.workers → NoWorker k t.workers)
    → ((k : Text)
        → NoWorker k s.workers
        → is_some (get s.table k) ≡ true
        → is_some (get t.table k) ≡ true)
    → (pc : ManagerPc) → ManagerSafe s pc
    → ManagerSafe t pc
ManagerSafe-mono s t no_worker has (looked_up c m none) h = no_worker _ h
ManagerSafe-mono s t no_worker has (looked_up c m (some item)) h = tt
ManagerSafe-mono s t no_worker has (starts k) h = (no_worker k h.0, has k h.0 h.1)
ManagerSafe-mono s t no_worker has idle h = tt
ManagerSafe-mono s t no_worker has (replaces c m) h = tt
ManagerSafe-mono s t no_worker has (sends ch) h = tt

looked_up-safe :
    (s : System) (c : Consumer) (m : Message) (found : Option Item)
    → get s.table (get_consumer_key m c) ≡ found
    → AllHave s.table s.workers
    → ManagerSafe s (looked_up c m found)
looked_up-safe s c m none e h = NoWorker-of_none s.table _ s.workers e h
looked_up-safe s c m (some item) e h = tt

-- A goroutine moves on, and the map only gains entries.
move-IsAlive :
    (s t : System) (i : ℕ) (w : Worker) (pc : WorkerPc)
    → get_elem? s.workers i ≡ some w
    → IsAlive s
    → t.workers ≡ set s.workers i (record w { pc = pc })
    → t.manager ≡ s.manager
    → IsSharded t.table
    → Grows s.table t.table
    → IsAlive t
move-IsAlive s t i w pc e h ws mgr sh grows = record {
  sharded = sh;
  have = rw ws (
      AllHave-set t.table s.workers i w _ e refl
        (AllHave-Grows s.table t.table s.workers grows h.have));
  manager_safe = rw mgr (
      ManagerSafe-mono s t (λ k no. rw ws (NoWorker-set k s.workers i w _ e refl no))
        (λ k no. grows k) s.manager h.manager_safe);
}

manager-IsAlive :
    (s t : System)
    → IsAlive s
    → t.workers ≡ s.workers
    → IsSharded t.table
    → Grows s.table t.table
    → ManagerSafe t t.manager
    → IsAlive t
manager-IsAlive s t h ws sh grows safe = record {
  sharded = sh;
  have = rw ws (AllHave-Grows s.table t.table s.workers grows h.have);
  manager_safe = safe;
}

pub Step-IsAlive : {s t : System} → IsAlive s → Step s t → IsAlive t
Step-IsAlive {s} h (gets_update c m e) =
    manager-IsAlive s _ h refl h.sharded (λ k old. old) (looked_up-safe s c m _ refl h.have)
Step-IsAlive {s} h (touches c m item now e) =
    manager-IsAlive s _ h refl (set_key-IsSharded s.table _ h.sharded _)
      (set_key-Grows s.table _ _ h.sharded) tt
Step-IsAlive {s} h (replaces_entry c m e) =
    manager-IsAlive s _ h refl (set_key-IsSharded s.table _ h.sharded _)
      (set_key-Grows s.table _ _ h.sharded) tt
Step-IsAlive {s} h (inserts_entry c m e) =
    manager-IsAlive s _ h refl (set_key-IsSharded s.table _ h.sharded _)
      (set_key-Grows s.table _ _ h.sharded)
      (rw e at h.manager_safe, set_key-has s.table _ _ h.sharded)
Step-IsAlive {s} h (starts_worker k e) = record {
  sharded = h.sharded;
  have =
      let (new, has) = rw e at h.manager_safe in AllHave-append s.table s.workers _ has new h.have;
  manager_safe = tt;
}
Step-IsAlive {s} h (gets_delete c m item e found) =
    manager-IsAlive s _ h refl h.sharded (λ k old. old) tt
Step-IsAlive {s} h (sends_exit ch e room) = manager-IsAlive s _ h refl h.sharded (λ k old. old) tt
Step-IsAlive {s} h (finds_entry i w l item e pc found) =
    move-IsAlive s _ i w (reads l) e h refl refl h.sharded (λ k old. old)
Step-IsAlive {s} h (misses_entry i w l e pc missing) =
    move-IsAlive s _ i w exiting e h refl refl h.sharded (λ k old. old)
Step-IsAlive {s} h (reads_entry i w l item e pc found) =
    move-IsAlive s _ i w (writes l item) e h refl refl h.sharded (λ k old. old)
Step-IsAlive {s} h (writes_time i w l item now e pc) =
    move-IsAlive s _ i w _ e h refl refl (set_key-IsSharded s.table _ h.sharded _)
      (set_key-Grows s.table _ _ h.sharded)
Step-IsAlive {s} h (connects i w l e pc) =
    move-IsAlive s _ i w (checks l) e h refl refl h.sharded (λ k old. old)
Step-IsAlive {s} h (delivers i w item l e pc) =
    move-IsAlive s _ i w (checks l) e h refl refl h.sharded (λ k old. old)
Step-IsAlive {s} h (takes_exit i w item n e pc waiting) =
    move-IsAlive s _ i w exiting e h refl refl h.sharded (λ k old. old)
Step-IsAlive {s} h (removes_entry i w e pc) = record {
  sharded = remove-IsSharded s.table w.key h.sharded;
  have = (AllHave-erase_idx s.table s.workers i w h.sharded e h.have).0;
  manager_safe =
      ManagerSafe-mono s
        (record s { table = remove s.table w.key; workers = erase_idx s.workers i })
        (λ k no. NoWorker-erase_idx k s.workers i no)
        (λ k no. remove-has s.table w.key k h.sharded (NoWorker-get k s.workers i w e no)) s.manager
        h.manager_safe;
}

initial-IsAlive : IsAlive initial
initial-IsAlive = record { sharded = new-IsSharded; have = tt; manager_safe = tt }

pub Reach-IsAlive : {s t : System} → IsAlive s → Reach s t → IsAlive t
Reach-IsAlive h here = h
Reach-IsAlive h (next r step) = Step-IsAlive (Reach-IsAlive h r) step

pub reached-IsAlive : {s : System} → Reach initial s → IsAlive s
reached-IsAlive r = Reach-IsAlive initial-IsAlive r

-- However the goroutines interleave, a goroutine that has not ended finds its entry in the map
-- whenever it looks: the type assertions on what `Get` returns do not panic, and the exits for a
-- missing entry are not taken.
pub worker_finds_entry :
    {s : System} (i : ℕ) (w : Worker)
    → Reach initial s
    → get_elem? s.workers i ≡ some w
    → (item : Item) × (get s.table w.key ≡ some item)
worker_finds_entry {s} i w r e =
    some_entry (get s.table w.key) refl
      (AllHave-get s.table s.workers i w e (reached-IsAlive r).have)
  where
    some_entry :
        (o : Option Item)
        → get s.table w.key ≡ o
        → is_some o ≡ true
        → (item : Item) × (get s.table w.key ≡ some item)
    some_entry none e h = cc
    some_entry (some item) e h = (item, e)
