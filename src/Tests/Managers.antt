-- ===== src/Tests/Managers.antt =====
-- Runs of the consumer manager and its goroutines (message.go).
use wmq.Common.{◌==◌, ◌≡◌, refl, ap, some, none, [], ◌∷◌, ◌++◌, text}
use wmq.Common.Dict.{lookup, insert}
use wmq.ConcurrentMap.{
  ConcurrentMap, new_concurrent_map, get, set_key, remove, shard_index, fnv32, fnv_loop,
}
use wmq.Registry.{Message, Consumer, get_consumer_key}
use wmq.Manager.{
  Item, Loop, outer, inner, WorkerPc, checks, connecting, waits, exiting, Worker, idle, looked_up,
  sends, System, gets_update, inserts_entry, starts_worker, gets_delete, sends_exit, finds_entry,
  reads_entry, writes_time, connects, takes_exit, replaces, Reach, here, next, initial, touch,
  new_item, write_new, after_write, update_at,
}
use wmq.Manager.Alive.{worker_finds_entry}
use wmq.Manager.Orphans.{IsOrphan, update_may-IsOrphan}
use wmq.Manager.Owners.{delete_reaches-SameKey}
use wmq.Tests.Registries.{a_consumer, orders, bills}

-- After an `update` of a consumer that was unknown.
abbrev started : System → Consumer → Message → System
started s c m = record (write_new s c m idle) {
  workers = s.workers ++ record { key = get_consumer_key m c; pc = checks outer } ∷ [];
}

starts_new :
    {s : System} (c : Consumer) (m : Message)
    → Reach initial s
    → s.manager ≡ idle
    → get s.table (get_consumer_key m c) ≡ none
    → Reach initial (started s c m)
starts_new c m r still missing =
    next (next (next r (gets_update c m still)) (inserts_entry c m (ap (looked_up c m) missing)))
      (starts_worker (get_consumer_key m c) refl)

abbrev pub one_runs : System
one_runs = started initial a_consumer orders

abbrev two_run : System
two_run = started one_runs a_consumer bills

pub reaches_one : Reach initial one_runs
unfolding get new_concurrent_map shard_index fnv32 fnv_loop lookup ◌==◌
reaches_one = starts_new a_consumer orders here refl refl

reaches_two : Reach initial two_run
unfolding get set_key new_concurrent_map shard_index fnv32 fnv_loop lookup insert ◌==◌
reaches_two = starts_new a_consumer bills reaches_one refl refl

worker_finds_entry_example : (item : Item) × (get two_run.table (text "bills-c") ≡ some item)
worker_finds_entry_example =
    worker_finds_entry 1 (record { key = text "bills-c"; pc = checks outer }) reaches_two refl

abbrev pub at : WorkerPc → Worker
at pc = record { key = text "orders-c"; pc = pc }

abbrev pub running : ConcurrentMap Item → WorkerPc → System
running table pc = record one_runs { table = table; workers = at pc ∷ [] }

-- The head of a loop.
turns :
    (table : ConcurrentMap Item) (l : Loop) (item : Item)
    → get table (text "orders-c") ≡ some item
    → Reach initial (running table (checks l))
    → Reach initial
        (running (set_key table (text "orders-c") (touch item 5)) (after_write l (touch item 5)))
turns table l item found r =
    next
      (next (next r (finds_entry 0 (at (checks l)) l item refl refl found))
        (reads_entry 0 (at _) l item refl refl found))
      (writes_time 0 (at _) l item 5 refl refl)

abbrev pub entry : Item
entry = new_item initial a_consumer orders

abbrev pub written : Item → ConcurrentMap Item → ConcurrentMap Item
written item table = set_key table (text "orders-c") item

abbrev pub waiting_table : ConcurrentMap Item
waiting_table = written (touch entry 5) (written (touch entry 5) (written entry new_concurrent_map))

pub reaches_waiting : Reach initial (running waiting_table (waits (touch entry 5)))
unfolding get set_key new_concurrent_map shard_index fnv32 fnv_loop lookup insert ◌==◌
reaches_waiting =
    turns (written (touch entry 5) (written entry new_concurrent_map)) inner (touch entry 5) refl (
      next (turns (written entry new_concurrent_map) outer entry refl reaches_one)
        (connects 0 (at connecting) inner refl refl))

-- The consumer was deleted, and its goroutine has taken the command.
abbrev stopping : System
stopping = record (running waiting_table exiting) {
  commands = update_at (update_at (λ ch. 0) 0 1) 0 0;
}

reaches_stopping : Reach initial stopping
unfolding get set_key new_concurrent_map shard_index fnv32 fnv_loop lookup insert ◌==◌
reaches_stopping =
    next
      (next (next reaches_waiting (gets_delete a_consumer orders (touch entry 5) refl refl))
        (sends_exit 0 refl refl))
      (takes_exit 0 (at _) (touch entry 5) 0 refl refl refl)

update_may-IsOrphan_example :
    (t : System) × Reach stopping t × ((u : System) → Reach t u → IsOrphan (text "orders-c") u)
update_may-IsOrphan_example =
    update_may-IsOrphan 0 (at exiting) a_consumer orders reaches_stopping refl refl refl refl

-- The entry as an `update` finds it before the goroutine removes it.
abbrev found_before : System
found_before = record stopping {
  manager = looked_up a_consumer orders (get waiting_table (text "orders-c"));
}

abbrev removed : System
removed = record found_before { table = remove waiting_table (text "orders-c"); workers = [] }

abbrev touched : System
touched = record removed {
  table = written (touch (touch entry 5) 9) (remove waiting_table (text "orders-c"));
  manager = replaces a_consumer orders;
}

abbrev orphaned : System
orphaned = write_new touched a_consumer orders idle

-- The command of a `delete` is under way.
abbrev deleting : System
deleting = record (running waiting_table (waits (touch entry 5))) { manager = sends 0 }

delete_reaches-SameKey_example : text "orders-c" ≡ get_consumer_key orders a_consumer
unfolding get set_key new_concurrent_map shard_index fnv32 fnv_loop lookup insert ◌==◌
delete_reaches-SameKey_example =
    delete_reaches-SameKey {t = deleting} a_consumer orders (touch entry 5) (touch entry 5) 0
      (at (waits (touch entry 5))) reaches_waiting refl
      (next here (gets_delete a_consumer orders (touch entry 5) refl refl)) refl refl refl
