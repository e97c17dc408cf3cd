-- ===== src/Manager/Updates.antt =====
-- What becomes of an `update` (message.go) whose consumer has a goroutine already.
use wmq.Common.{
  ℕ, ◌≡◌, refl, sym, ap, ◌∙◌, inl, inr, some, Text, ◌==◌, ==_iff, ==_refl, Bool-cases, true, false,
  get_elem?, arith,
}
use wmq.ConcurrentMap.{get, set_key}
use wmq.ConcurrentMap.Invariant.{IsSharded, get-set_key, set_key-IsSharded}
use wmq.Registry.{Message, Consumer, get_consumer_key}
use wmq.Manager.{
  Item, writes, waits, Worker, idle, looked_up, replaces, System, gets_update, touches,
  replaces_entry, writes_time, Reach, here, next, initial, touch, new_item, write_new, Loop, move,
  after_write,
}
use wmq.Manager.Alive.{reached-IsAlive, worker_finds_entry}
use wmq.Manager.Channels.{AllWorkers-get, HeldAt, Held}
use wmq.Manager.Orphans.{joins}
use wmq.Manager.Owners.{reached-Owned}
use wmq.Manager.Waiting.{Waiting, Waiting-get, some-injective}
use wmq.Manager.Stale.{IsDeaf, Silent, Silent-IsDeaf}

-- The manager has done the update of a consumer with an entry, and waits for the next command.
abbrev pub updated : System → Consumer → Message → Item → System
updated s c m it =
    write_new
      (record s {
        table = set_key s.table (get_consumer_key m c) (touch it 0);
        manager = replaces c m;
      })
      c m idle

module _ {s : System} (i : ℕ) (w : Worker) (c : Consumer) (m : Message) (r : Reach initial s)
    (still : s.manager ≡ idle) (e : get_elem? s.workers i ≡ some w)
    (key : get_consumer_key m c ≡ w.key) where
  -- The entry that the update finds.
  abbrev found_item : Item
  found_item = (worker_finds_entry i w r e).0

  reaches_updated : Reach s (updated s c m found_item)
  reaches_updated =
      next
        (next (next here (gets_update c m still)) (
          touches c m found_item 0
            (ap (looked_up c m) (ap (get s.table) key ∙ (worker_finds_entry i w r e).1))))
        (replaces_entry c m refl)

  touched-IsSharded : IsSharded (set_key s.table (get_consumer_key m c) (touch found_item 0))
  touched-IsSharded = set_key-IsSharded s.table _ (reached-IsAlive r).sharded _

  updated-get : get (updated s c m found_item).table w.key ≡ some (new_item s c m)
  updated-get =
      rw
        (
          get-set_key (set_key s.table (get_consumer_key m c) (touch found_item 0))
              (get_consumer_key m c) touched-IsSharded (new_item s c m) w.key,
          key,
          ==_refl w.key,
        )
        refl

  updated-IsDeaf :
      (item : Item)
      → w.pc ≡ waits item
      → s.commands item.read_chan ≡ 0
      → IsDeaf w.key item (updated s c m found_item)
  updated-IsDeaf item pc empty =
      let at_s = reached-Owned r in
      let at_t = reached-Owned (joins r reaches_updated) in
      let was : HeldAt at_s.owner' s.next_chan w.key (waits item) =
        rw pc at (AllWorkers-get (Held at_s.owner' s.next_chan) s.workers i w e at_s.owned.held) in
      let n = (updated s c m found_item).next_chan in
      let held : HeldAt at_t.owner' n w.key (waits item) =
        rw pc at (AllWorkers-get (Held at_t.owner' n) s.workers i w e at_t.owned.held) in
      record {
        alive = reached-IsAlive (joins r reaches_updated);
        owner = at_t.owner';
        owned = at_t.owned;
        own = held.0;
        old = held.1;
        waiting = Waiting-get w.key item s.workers i w e (ap (λ x. record w { pc = x }) pc);
        empty = empty;
        apart = λ j it found. elim (Bool-cases (w.key == j)) [
          | inl same ↦
              let this = some-injective (
                sym found
                ∙ ap (get (updated s c m found_item).table) (sym ((==_iff w.key j).0 same))
                ∙ updated-get) in
              λ chan. omega (arith, was.1, ap (λ x. x.read_chan) this, chan)
          | inr differ ↦
              let owned = at_t.owned.entries j it found in
              λ chan. differs differ (sym held.0 ∙ ap at_t.owner' (sym chan) ∙ owned.0)
        ];
        manager_apart = tt;
      }
    where
      true-false : true ≡ false → ⊥
      true-false x = cc

      differs : {j : Text} → (w.key == j) ≡ false → w.key ≡ j → ⊥
      differs {j} ne same = true-false (sym ((==_iff w.key j).1 same) ∙ ne)

-- When a consumer is updated while its goroutine waits, its entry has the new consumer, but the goroutine goes
-- on waiting with the old one for as long as there is no delivery: another `update` does not reach it,
-- nor does a `delete`, and the next message is sent to the old consumer.
pub updated-Waiting :
    {s : System} (i : ℕ) (w : Worker) (c : Consumer) (m : Message) (item : Item)
    → Reach initial s
    → s.manager ≡ idle
    → get_elem? s.workers i ≡ some w
    → w.pc ≡ waits item
    → s.commands item.read_chan ≡ 0
    → get_consumer_key m c ≡ w.key
    → (t : System) × Reach s t
      × (t.manager ≡ idle)
      × ((it : Item) × (get t.table w.key ≡ some it) × (it.consumer ≡ c))
      × ((u : System) → Silent w.key t u → Waiting w.key item u.workers)
updated-Waiting {s} i w c m item r still e pc empty key = (
  updated s c m (found_item i w c m r still e key),
  reaches_updated i w c m r still e key,
  refl,
  (new_item s c m, updated-get i w c m r still e key, refl),
  λ u later. (Silent-IsDeaf (updated-IsDeaf i w c m r still e key item pc empty) later).waiting,
)

-- When a consumer is updated between the moment its goroutine reads the entry and the moment it writes the active
-- time into it, the update may be lost: the manager is done with it, and the entry is the old one.
pub updated_may-Lost :
    {s : System} (i : ℕ) (w : Worker) (c : Consumer) (m : Message) (l : Loop) (item : Item)
    → Reach initial s
    → s.manager ≡ idle
    → get_elem? s.workers i ≡ some w
    → w.pc ≡ writes l item
    → get_consumer_key m c ≡ w.key
    → (t : System) × (u : System) × Reach s t
      × (t.manager ≡ idle)
      × (get t.table w.key ≡ some (new_item s c m))
      × Reach t u
      × (u.manager ≡ idle)
      × (get u.table w.key ≡ some (touch item 0))
updated_may-Lost {s} i w c m l item r still e pc key =
    let t = updated s c m (found_item i w c m r still e key) in
    (
      t,
      record (move t i w (after_write l (touch item 0))) {
        table = set_key t.table w.key (touch item 0);
      },
      reaches_updated i w c m r still e key,
      refl,
      updated-get i w c m r still e key,
      next here (writes_time i w l item 0 e pc),
      refl,
      rw
          (
            get-set_key t.table w.key
                (reached-IsAlive (joins r (reaches_updated i w c m r still e key))).sharded
                (touch item 0) w.key,
            ==_refl w.key,
          )
          refl,
    )
