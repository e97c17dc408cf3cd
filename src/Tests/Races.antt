-- ===== src/Tests/Races.antt =====
-- Runs in which the manager and the goroutines of message.go cross each other.
use wmq.Common.{◌==◌, ◌≡◌, refl, false, some, text}
use wmq.Common.Dict.{lookup, insert}
use wmq.ConcurrentMap.{
  ConcurrentMap, new_concurrent_map, get, set_key, shard_index, fnv32, fnv_loop,
}
use wmq.Registry.{Consumer}
use wmq.Manager.{
  Item, outer, checks, reads, writes, connecting, waits, idle, System, gets_delete, sends_exit,
  finds_entry, reads_entry, Reach, next, initial, touch, new_item, update_at,
}
use wmq.Manager.Stale.{Silent}
use wmq.Manager.Waiting.{Waiting}
use wmq.Manager.Restarts.{told_on}
use wmq.Manager.Updates.{updated, updated-Waiting, updated_may-Lost}
use wmq.Manager.Ends.{MayEndAlone, told_may-End}
use wmq.Manager.Queues.{Joint}
use wmq.Tests.Managers.{at, running, entry, written, waiting_table, reaches_one, reaches_waiting}
use wmq.Tests.Registries.{a_consumer, orders}

-- The consumer with another URL.
abbrev moved_consumer : Consumer
moved_consumer = record a_consumer { url = text "http://new" }

updated-Waiting_example :
    (t : System) × Reach (running waiting_table (waits (touch entry 5))) t
    × (t.manager ≡ idle)
    × ((it : Item) × (get t.table (text "orders-c") ≡ some it) × (it.consumer ≡ moved_consumer))
    × ((u : System)
        → Silent (text "orders-c") t u
        → Waiting (text "orders-c") (touch entry 5) u.workers)
updated-Waiting_example =
    updated-Waiting 0 (at (waits (touch entry 5))) moved_consumer orders (touch entry 5)
      reaches_waiting refl refl refl refl refl

-- The goroutine has read its entry for the first time.
abbrev reading : System
reading = running (written entry new_concurrent_map) (writes outer entry)

reaches_reading : Reach initial reading
unfolding get set_key new_concurrent_map shard_index fnv32 fnv_loop lookup insert ◌==◌
reaches_reading =
    next (next reaches_one (finds_entry 0 (at (checks outer)) outer entry refl refl refl))
      (reads_entry 0 (at (reads outer)) outer entry refl refl refl)

updated_may-Lost_example :
    (t : System) × (u : System) × Reach reading t
    × (t.manager ≡ idle)
    × (get t.table (text "orders-c") ≡ some (new_item reading moved_consumer orders))
    × Reach t u
    × (u.manager ≡ idle)
    × (get u.table (text "orders-c") ≡ some (touch entry 0))
updated_may-Lost_example =
    updated_may-Lost 0 (at (writes outer entry)) moved_consumer orders outer entry reaches_reading
      refl refl refl refl

-- The command of a `delete` is in the channel.
abbrev told : System
told = record (running waiting_table (waits (touch entry 5))) { commands = update_at (λ ch. 0) 0 1 }

reaches_told : Reach initial told
unfolding get set_key new_concurrent_map shard_index fnv32 fnv_loop lookup insert ◌==◌
reaches_told =
    next (next reaches_waiting (gets_delete a_consumer orders (touch entry 5) refl refl))
      (sends_exit 0 refl refl)

told_may-End_example : MayEndAlone 0 (text "orders-c") told
unfolding get set_key new_concurrent_map shard_index fnv32 fnv_loop lookup insert ◌==◌
told_may-End_example =
    told_may-End 0 (at (waits (touch entry 5))) (touch entry 5) 0 reaches_told refl refl refl tt

-- The same while the goroutine connects.
abbrev connecting_table : ConcurrentMap Item
connecting_table = written (touch entry 5) (written entry new_concurrent_map)

abbrev told_early : Joint
told_early = record {
  system = record (running connecting_table connecting) { commands = update_at (λ ch. 0) 0 1 };
  queues = λ k. false;
}

abbrev restarting : System
restarting =
    updated (told_on (running waiting_table (waits (touch entry 5))) 0) a_consumer orders
      (touch entry 5)
