-- ===== src/Manager/Orphans.antt =====
-- An entry of `wrapedConsumers` (message.go) whose goroutine has ended, and how one comes to be.
use wmq.Common.{
  subst, ℕ, ◌≡◌, refl, ◌≢◌, ap, ◌∙◌, true, Option, none, some, Text, get_elem?, erase_idx, is_some,
}
use wmq.ConcurrentMap.{get, set_key, remove}
use wmq.ConcurrentMap.Invariant.{set_key-IsSharded, remove-IsSharded}
use wmq.Registry.{Message, Consumer, get_consumer_key}
use wmq.Manager.{
  Item, exiting, Worker, ManagerPc, idle, looked_up, replaces, starts, System, Step, gets_update,
  touches, replaces_entry, inserts_entry, starts_worker, gets_delete, sends_exit, finds_entry,
  misses_entry, reads_entry, writes_time, connects, delivers, takes_exit, removes_entry, Reach,
  here, next, initial, touch, new_item, write_new,
}
use wmq.Manager.Keys.{
  NoWorker, set_key-Grows, set_key-has, remove-has, NoWorker-set, NoWorker-append, NoWorker-get,
  NoWorker-erase_idx, AllHave-erase_idx,
}
use wmq.Manager.Alive.{IsAlive, Step-IsAlive, reached-IsAlive, worker_finds_entry}

-- The manager is not about to start a goroutine of the key.
abbrev pub NotStarting : Text → ManagerPc → Type 0
NotStarting k (looked_up c m none) = get_consumer_key m c ≢ k
NotStarting k (starts j) = j ≢ k
NotStarting k _ = Unit

-- The key has an entry, but no goroutine, and none is about to start.
pub record IsOrphan (k : Text) (s : System) : Type 0 where
  pub entry : is_some (get s.table k) ≡ true
  pub no_worker : NoWorker k s.workers
  pub not_starting : NotStarting k s.manager

looked_up-NotStarting :
    (k : Text) (s : System) (c : Consumer) (m : Message) (found : Option Item)
    → get s.table (get_consumer_key m c) ≡ found
    → is_some (get s.table k) ≡ true
    → NotStarting k (looked_up c m found)
looked_up-NotStarting k s c m none e h = λ p. cc (ap is_some (rw p at e))
looked_up-NotStarting k s c m (some item) e h = tt

pub Step-IsOrphan : {k : Text} {s t : System} → IsAlive s → IsOrphan k s → Step s t → IsOrphan k t
Step-IsOrphan {k} {s} a h (gets_update c m e) = record {
  entry = h.entry;
  no_worker = h.no_worker;
  not_starting = looked_up-NotStarting k s c m _ refl h.entry;
}
Step-IsOrphan {k} {s} a h (touches c m item now e) = record {
  entry = set_key-Grows s.table _ _ a.sharded k h.entry;
  no_worker = h.no_worker;
  not_starting = tt;
}
Step-IsOrphan {k} {s} a h (replaces_entry c m e) = record {
  entry = set_key-Grows s.table _ _ a.sharded k h.entry;
  no_worker = h.no_worker;
  not_starting = tt;
}
Step-IsOrphan {k} {s} a h (inserts_entry c m e) = record {
  entry = set_key-Grows s.table _ _ a.sharded k h.entry;
  no_worker = h.no_worker;
  not_starting = rw e at h.not_starting;
}
Step-IsOrphan {k} {s} a h (starts_worker j e) = record {
  entry = h.entry;
  no_worker = NoWorker-append k s.workers _ (rw e at h.not_starting) h.no_worker;
  not_starting = tt;
}
Step-IsOrphan {k} {s} a h (gets_delete c m item e found) = record {
  entry = h.entry;
  no_worker = h.no_worker;
  not_starting = tt;
}
Step-IsOrphan {k} {s} a h (sends_exit ch e room) = record {
  entry = h.entry;
  no_worker = h.no_worker;
  not_starting = tt;
}
Step-IsOrphan {k} {s} a h (finds_entry i w l item e pc found) = record {
  entry = h.entry;
  no_worker = NoWorker-set k s.workers i w _ e refl h.no_worker;
  not_starting = h.not_starting;
}
Step-IsOrphan {k} {s} a h (misses_entry i w l e pc missing) = record {
  entry = h.entry;
  no_worker = NoWorker-set k s.workers i w _ e refl h.no_worker;
  not_starting = h.not_starting;
}
Step-IsOrphan {k} {s} a h (reads_entry i w l item e pc found) = record {
  entry = h.entry;
  no_worker = NoWorker-set k s.workers i w _ e refl h.no_worker;
  not_starting = h.not_starting;
}
Step-IsOrphan {k} {s} a h (writes_time i w l item now e pc) = record {
  entry = set_key-Grows s.table _ _ a.sharded k h.entry;
  no_worker = NoWorker-set k s.workers i w _ e refl h.no_worker;
  not_starting = h.not_starting;
}
Step-IsOrphan {k} {s} a h (connects i w l e pc) = record {
  entry = h.entry;
  no_worker = NoWorker-set k s.workers i w _ e refl h.no_worker;
  not_starting = h.not_starting;
}
Step-IsOrphan {k} {s} a h (delivers i w item l e pc) = record {
  entry = h.entry;
  no_worker = NoWorker-set k s.workers i w _ e refl h.no_worker;
  not_starting = h.not_starting;
}
Step-IsOrphan {k} {s} a h (takes_exit i w item n e pc waiting) = record {
  entry = h.entry;
  no_worker = NoWorker-set k s.workers i w _ e refl h.no_worker;
  not_starting = h.not_starting;
}
Step-IsOrphan {k} {s} a h (removes_entry i w e pc) = record {
  entry = remove-has s.table w.key k a.sharded (NoWorker-get k s.workers i w e h.no_worker) h.entry;
  no_worker = NoWorker-erase_idx k s.workers i h.no_worker;
  not_starting = h.not_starting;
}

pub Reach-IsOrphan :
    {k : Text} {s t : System} → IsAlive s → IsOrphan k s → Reach s t → IsAlive t × IsOrphan k t
Reach-IsOrphan a h here = (a, h)
Reach-IsOrphan a h (next r step) =
    let (a', h') = Reach-IsOrphan a h r in (Step-IsAlive a' step, Step-IsOrphan a' h' step)

-- A consumer whose entry has outlived its goroutine is never served again: whatever is done later,
-- and whatever `update` commands come, its entry stays and no goroutine of it runs.
IsOrphan-forever :
    {s t : System} (k : Text) → Reach initial s → IsOrphan k s → Reach s t → IsOrphan k t
IsOrphan-forever k r h later = (Reach-IsOrphan (reached-IsAlive r) h later).1

-- The `update` finds the entry, the goroutine removes it and ends, and the manager writes it again.
races_to-IsOrphan :
    {s : System} (i : ℕ) (w : Worker) (c : Consumer) (m : Message)
    → Reach initial s
    → s.manager ≡ idle
    → get_elem? s.workers i ≡ some w
    → w.pc ≡ exiting
    → get_consumer_key m c ≡ w.key
    → (t : System) × Reach s t × IsOrphan w.key t
races_to-IsOrphan {s} i w c m r still e pc key =
    let a = reached-IsAlive r in
    let (item, found) = worker_finds_entry i w r e in
    let found' = ap (get s.table) key ∙ found in
    let s₁ : System = record s { manager = looked_up c m (get s.table (get_consumer_key m c)) } in
    let s₂ : System = record s₁ { table = remove s.table w.key; workers = erase_idx s.workers i } in
    let sh₂ = remove-IsSharded s.table w.key a.sharded in
    let s₃ : System = record s₂ {
      table = set_key s₂.table (get_consumer_key m c) (touch item 0);
      manager = replaces c m;
    } in
    let sh₃ = set_key-IsSharded s₂.table (get_consumer_key m c) sh₂ (touch item 0) in
    (
      write_new s₃ c m idle,
      next
          (next (next (next here (gets_update c m still)) (removes_entry i w e pc))
            (touches c m item 0 (ap (looked_up c m) found')))
          (replaces_entry c m refl),
      record {
        entry =
            subst (λ k. is_some (get (write_new s₃ c m idle).table k) ≡ true) key
              (set_key-has s₃.table (get_consumer_key m c) (new_item s₃ c m) sh₃);
        no_worker = (AllHave-erase_idx s.table s.workers i w a.sharded e a.have).1;
        not_starting = tt;
      },
    )

pub joins : {s t u : System} → Reach s t → Reach t u → Reach s u
joins r here = r
joins r (next q step) = next (joins r q) step

-- Whenever a goroutine is about to remove its entry and the manager is idle, an `update` of its
-- consumer may race with it so that the entry stays without a goroutine for ever: whatever is done later,
-- and whatever `update` commands come, the consumer is not served.
pub update_may-IsOrphan :
    {s : System} (i : ℕ) (w : Worker) (c : Consumer) (m : Message)
    → Reach initial s
    → s.manager ≡ idle
    → get_elem? s.workers i ≡ some w
    → w.pc ≡ exiting
    → get_consumer_key m c ≡ w.key
    → (t : System) × Reach s t × ((u : System) → Reach t u → IsOrphan w.key u)
update_may-IsOrphan i w c m r still e pc key =
    let (t, reached, h) = races_to-IsOrphan i w c m r still e pc key in
    (t, reached, λ u later. IsOrphan-forever w.key (joins r reached) h later)
