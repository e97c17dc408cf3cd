-- ===== src/Manager.antt =====
-- `initConsumerManager` (message.go): the manager's loop and the goroutines of the consumers, which
-- share the map `wrapedConsumers`. Each access of the map or of a channel is a step of its own, and
-- the steps of all goroutines may interleave in any order. The callers of the manager hold
-- `msgLock` while they wait for its answer, so at most one command is under way.
pub mod Keys
pub mod Alive
pub mod Orphans
pub mod Channels
pub mod Owners
pub mod Stuck
pub mod Waiting
pub mod Stale
pub mod Updates
pub mod Ends
pub mod Queues
pub mod Restarts
pub mod Served
pub mod Connect
pub mod Consume
pub mod Goroutine
use wmq.Common.{
  ℕ, zero, suc, ◌+◌, ◌≡◌, Bool, true, false, Option, none, some, List, [], ◌∷◌, ◌++◌, Text,
  get_elem?, set, erase_idx, nat_eq, if◌then◌else◌,
}
use wmq.ConcurrentMap.{ConcurrentMap, new_concurrent_map, get, set_key, remove}
use wmq.Registry.{Message, Consumer, get_consumer_key}

-- `manageConsumer`, with its `wrapedConsumer`. A channel is named by a number.
pub record Item : Type 0 where
  pub consumer : Consumer
  pub message : Message
  pub lasttime : ℕ
  pub read_chan : ℕ

-- Where a consumer's goroutine stands. It looks itself up at the head of the loop that connects
-- (`outer`) and of the loop that waits for commands and deliveries (`inner`).
pub data Loop : Type 0 where
  outer inner : Loop

pub data WorkerPc : Type 0 where
  checks : Loop → WorkerPc
  reads : Loop → WorkerPc
  writes : Loop → Item → WorkerPc
  connecting : WorkerPc
  waits : Item → WorkerPc
  exiting : WorkerPc

pub record Worker : Type 0 where
  pub key : Text
  pub pc : WorkerPc

-- Where the manager stands: it waits for a command, has looked up the consumer of an `update`,
-- is about to replace its entry or to start its goroutine, or to send `exit` on a channel.
pub data ManagerPc : Type 0 where
  idle : ManagerPc
  looked_up : Consumer → Message → Option Item → ManagerPc
  replaces : Consumer → Message → ManagerPc
  starts : Text → ManagerPc
  sends : ℕ → ManagerPc

-- `commands ch` is the number of `exit`s in the channel, which holds one at most.
pub record System : Type 0 where
  pub table : ConcurrentMap Item
  pub workers : List Worker
  pub manager : ManagerPc
  pub commands : ℕ → ℕ
  pub next_chan : ℕ

abbrev pub update_at : (ℕ → ℕ) → ℕ → ℕ → ℕ → ℕ
update_at f ch n j = if nat_eq j ch then n else f j

-- The entry that an `update` writes, with new channels.
abbrev pub new_item : System → Consumer → Message → Item
new_item s c m = record { consumer = c; message = m; lasttime = 0; read_chan = s.next_chan }

abbrev pub write_new : System → Consumer → Message → ManagerPc → System
write_new s c m pc = record s {
  table = set_key s.table (get_consumer_key m c) (new_item s c m);
  manager = pc;
  next_chan = suc s.next_chan;
}

abbrev pub move : System → ℕ → Worker → WorkerPc → System
move s i w pc = record s { workers = set s.workers i (record w { pc = pc }) }

abbrev pub touch : Item → ℕ → Item
touch item now = record item { lasttime = now }

-- After the active time is written: on to the connection, or to the `select` with the entry read.
abbrev pub after_write : Loop → Item → WorkerPc
after_write outer item = connecting
after_write inner item = waits item

pub data Step (s : System) : System → Type 0 where
  -- The manager.
  gets_update :
      (c : Consumer) (m : Message)
      → s.manager ≡ idle
      → Step s (record s { manager = looked_up c m (get s.table (get_consumer_key m c)) })
  touches :
      (c : Consumer) (m : Message) (item : Item) (now : ℕ)
      → s.manager ≡ looked_up c m (some item)
      → Step s (record s {
        table = set_key s.table (get_consumer_key m c) (touch item now);
        manager = replaces c m;
      })
  replaces_entry :
      (c : Consumer) (m : Message) → s.manager ≡ replaces c m → Step s (write_new s c m idle)
  inserts_entry :
      (c : Consumer) (m : Message)
      → s.manager ≡ looked_up c m none
      → Step s (write_new s c m (starts (get_consumer_key m c)))
  starts_worker :
      (k : Text)
      → s.manager ≡ starts k
      → Step s (record s {
        workers = s.workers ++ record { key = k; pc = checks outer } ∷ [];
        manager = idle;
      })
  gets_delete :
      (c : Consumer) (m : Message) (item : Item)
      → s.manager ≡ idle
      → get s.table (get_consumer_key m c) ≡ some item
      → Step s (record s { manager = sends item.read_chan })
  sends_exit :
      (ch : ℕ)
      → s.manager ≡ sends ch
      → s.commands ch ≡ 0
      → Step s (record s { manager = idle; commands = update_at s.commands ch 1 })
  -- The goroutine at place `i`.
  finds_entry :
      (i : ℕ) (w : Worker) (l : Loop) (item : Item)
      → get_elem? s.workers i ≡ some w
      → w.pc ≡ checks l
      → get s.table w.key ≡ some item
      → Step s (move s i w (reads l))
  misses_entry :
      (i : ℕ) (w : Worker) (l : Loop)
      → get_elem? s.workers i ≡ some w
      → w.pc ≡ checks l
      → get s.table w.key ≡ none
      → Step s (move s i w exiting)
  reads_entry :
      (i : ℕ) (w : Worker) (l : Loop) (item : Item)
      → get_elem? s.workers i ≡ some w
      → w.pc ≡ reads l
      → get s.table w.key ≡ some item
      → Step s (move s i w (writes l item))
  writes_time :
      (i : ℕ) (w : Worker) (l : Loop) (item : Item) (now : ℕ)
      → get_elem? s.workers i ≡ some w
      → w.pc ≡ writes l item
      → Step s (record (move s i w (after_write l (touch item now))) {
        table = set_key s.table w.key (touch item now);
      })
  -- Steps 2 to 8, any of which may fail.
  connects :
      (i : ℕ) (w : Worker) (l : Loop)
      → get_elem? s.workers i ≡ some w
      → w.pc ≡ connecting
      → Step s (move s i w (checks l))
  -- A delivery, or the end of the deliveries.
  delivers :
      (i : ℕ) (w : Worker) (item : Item) (l : Loop)
      → get_elem? s.workers i ≡ some w
      → w.pc ≡ waits item
      → Step s (move s i w (checks l))
  takes_exit :
      (i : ℕ) (w : Worker) (item : Item) (n : ℕ)
      → get_elem? s.workers i ≡ some w
      → w.pc ≡ waits item
      → s.commands item.read_chan ≡ suc n
      → Step s (record (move s i w exiting) { commands = update_at s.commands item.read_chan n })
  -- The deferred function.
  removes_entry :
      (i : ℕ) (w : Worker)
      → get_elem? s.workers i ≡ some w
      → w.pc ≡ exiting
      → Step s (record s { table = remove s.table w.key; workers = erase_idx s.workers i })

pub data Reach (s : System) : System → Type 0 where
  here : Reach s s
  next : {t u : System} → Reach s t → Step t u → Reach s u

abbrev pub initial : System
initial = record {
  table = new_concurrent_map;
  workers = [];
  manager = idle;
  commands = λ ch. 0;
  next_chan = 0;
}
