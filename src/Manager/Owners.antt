-- ===== src/Manager/Owners.antt =====
-- However the goroutines of message.go interleave, a channel of the consumer manager belongs to one consumer key.
use wmq.Common.{
  ℕ, suc, ◌≡◌, ◌<◌, ◌≤◌, refl, sym, ap, ◌∙◌, inl, inr, Option, none, some, [], Text, get_elem?,
  get_or-replicate, nat_eq, nat_eq-cases, if◌then◌else◌, arith,
}
use wmq.Common.Dict.{Dict, lookup}
use wmq.ConcurrentMap.{shard_count, shard_index, ConcurrentMap, get, set_key, new_concurrent_map}
use wmq.ConcurrentMap.Invariant.{IsSharded}
use wmq.Registry.{Message, Consumer, get_consumer_key}
use wmq.Manager.{
  Item, Loop, outer, inner, WorkerPc, checks, reads, writes, waits, exiting, Worker, ManagerPc,
  idle, looked_up, starts, System, Step, gets_update, touches, replaces_entry, inserts_entry,
  starts_worker, gets_delete, sends_exit, finds_entry, misses_entry, reads_entry, writes_time,
  connects, delivers, takes_exit, removes_entry, Reach, here, next, initial, touch, new_item,
  write_new, move, after_write,
}
use wmq.Manager.Alive.{IsAlive, Reach-IsAlive, reached-IsAlive}
use wmq.Manager.Channels.{
  none-some, AllWorkers, AllWorkers-get, AllWorkers-set, AllWorkers-append, AllWorkers-erase_idx,
  AllWorkers-mono, Owns, Entries, HeldAt, Held, Looked, set_key-Entries, remove-Entries, Owns-mono,
  HeldAt-mono,
}

-- Every channel in the system is owned.
pub record IsOwned (owner : ℕ → Text) (s : System) : Type 0 where
  pub entries : Entries owner s.next_chan s.table
  pub held : AllWorkers (Held owner s.next_chan) s.workers
  pub looked : Looked owner s.next_chan s.manager

-- After some steps the channels are owned again, and the old ones as before.
pub record Owned (owner : ℕ → Text) (s t : System) : Type 0 where
  pub owner' : ℕ → Text
  pub owned : IsOwned owner' t
  pub same : (ch : ℕ) → ch < s.next_chan → owner' ch ≡ owner ch
  pub more : s.next_chan ≤ t.next_chan

keeps :
    {owner : ℕ → Text} {s t : System}
    → t.next_chan ≡ s.next_chan
    → IsOwned owner t
    → Owned owner s t
keeps {owner} e h = record { owner' = owner; owned = h; same = λ ch lt. refl; more = omega arith }

-- A goroutine moves on.
moves :
    {owner : ℕ → Text} {s : System} (table : ConcurrentMap Item) (commands : ℕ → ℕ) (i : ℕ)
    (w : Worker) (pc : WorkerPc)
    → IsOwned owner s
    → Entries owner s.next_chan table
    → HeldAt owner s.next_chan w.key pc
    → IsOwned owner (record (move s i w pc) { table = table; commands = commands })
moves {owner} {s} table commands i w pc h entries at = record {
  entries = entries;
  held = AllWorkers-set (Held owner s.next_chan) s.workers i (record w { pc = pc }) at h.held;
  looked = h.looked;
}

-- The owners with a new channel.
abbrev owner_of : (ℕ → Text) → ℕ → Text → ℕ → Text
owner_of owner n k ch = if nat_eq ch n then k else owner ch

owner_of-old :
    (owner : ℕ → Text) (n : ℕ) (k : Text) (ch : ℕ) → ch < n → owner_of owner n k ch ≡ owner ch
owner_of-old owner n k ch lt = elim (nat_eq-cases ch n) [
  | inl (e, t) ↦ absurd (omega arith)
  | inr (ne, t) ↦ rw t
]

owner_of-new : (owner : ℕ → Text) (n : ℕ) (k : Text) → owner_of owner n k n ≡ k
owner_of-new owner n k = elim (nat_eq-cases n n) [
  | inl (e, t) ↦ rw t
  | inr (ne, t) ↦ absurd (ne refl)
]

-- A new entry is written.
writes_new :
    {owner : ℕ → Text} {s : System} (c : Consumer) (m : Message) (pc : ManagerPc)
    → IsSharded s.table
    → IsOwned owner s
    → ((o : ℕ → Text) → Looked o (suc s.next_chan) pc)
    → Owned owner s (write_new s c m pc)
writes_new {owner} {s} c m pc sharded h looked =
    let k = get_consumer_key m c in
    let n = s.next_chan in
    let o = owner_of owner n k in
    let old = owner_of-old owner n k in
    record {
      owner' = o;
      owned = record {
        entries =
            set_key-Entries o (suc n) s.table k (new_item s c m) sharded
              (owner_of-new owner n k, omega arith)
              (λ j item found.
                Owns-mono owner o n (suc n) (omega arith) old j item (h.entries j item found));
        held =
            AllWorkers-mono (Held owner n) (Held o (suc n)) s.workers
              (λ w. HeldAt-mono owner o n (suc n) (omega arith) old w.key w.pc) h.held;
        looked = looked o;
      };
      same = old;
      more = omega arith;
    }

after_write-Held :
    (owner : ℕ → Text) (n : ℕ) (k : Text) (l : Loop) (item : Item)
    → Owns owner n k item
    → HeldAt owner n k (after_write l item)
after_write-Held owner n k outer item h = tt
after_write-Held owner n k inner item h = h

looked_up-Looked :
    {owner : ℕ → Text} {s : System} (c : Consumer) (m : Message) (found : Option Item)
    → get s.table (get_consumer_key m c) ≡ found
    → IsOwned owner s
    → Looked owner s.next_chan (looked_up c m found)
looked_up-Looked c m none e h = tt
looked_up-Looked c m (some item) e h = h.entries (get_consumer_key m c) item e

pub Step-Owned :
    {owner : ℕ → Text} {s t : System}
    → IsSharded s.table
    → IsOwned owner s
    → Step s t
    → Owned owner s t
Step-Owned {owner} {s} sh h (gets_update c m e) = keeps refl (record {
  entries = h.entries;
  held = h.held;
  looked = looked_up-Looked {owner = owner} {s = s} c m _ refl h;
})
Step-Owned {owner} {s} sh h (touches c m item now e) = keeps refl (record {
  entries =
      set_key-Entries owner s.next_chan s.table _ (touch item now) sh (rw e at h.looked) h.entries;
  held = h.held;
  looked = tt;
})
Step-Owned {owner} {s} sh h (replaces_entry c m e) = writes_new c m idle sh h (λ o. tt)
Step-Owned {owner} {s} sh h (inserts_entry c m e) =
    writes_new c m (starts (get_consumer_key m c)) sh h (λ o. tt)
Step-Owned {owner} {s} sh h (starts_worker k e) = keeps refl (record {
  entries = h.entries;
  held = AllWorkers-append (Held owner s.next_chan) s.workers _ tt h.held;
  looked = tt;
})
Step-Owned {owner} {s} sh h (gets_delete c m item e found) =
    keeps refl (record { entries = h.entries; held = h.held; looked = tt })
Step-Owned {owner} {s} sh h (sends_exit ch e room) =
    keeps refl (record { entries = h.entries; held = h.held; looked = tt })
Step-Owned {owner} {s} sh h (finds_entry i w l item e pc found) =
    keeps refl (moves s.table s.commands i w (reads l) h h.entries tt)
Step-Owned {owner} {s} sh h (misses_entry i w l e pc missing) =
    keeps refl (moves s.table s.commands i w exiting h h.entries tt)
Step-Owned {owner} {s} sh h (reads_entry i w l item e pc found) =
    keeps refl
      (moves s.table s.commands i w (writes l item) h h.entries (h.entries w.key item found))
Step-Owned {owner} {s} sh h (writes_time i w l item now e pc) =
    let own : HeldAt owner s.next_chan w.key (writes l item) =
      rw pc at (AllWorkers-get (Held owner s.next_chan) s.workers i w e h.held) in
    keeps refl (
      moves (set_key s.table w.key (touch item now)) s.commands i w _ h
        (set_key-Entries owner s.next_chan s.table w.key (touch item now) sh own h.entries)
        (after_write-Held owner s.next_chan w.key l (touch item now) own))
Step-Owned {owner} {s} sh h (connects i w l e pc) =
    keeps refl (moves s.table s.commands i w (checks l) h h.entries tt)
Step-Owned {owner} {s} sh h (delivers i w item l e pc) =
    keeps refl (moves s.table s.commands i w (checks l) h h.entries tt)
Step-Owned {owner} {s} sh h (takes_exit i w item n e pc waiting) =
    keeps refl (moves s.table _ i w exiting h h.entries tt)
Step-Owned {owner} {s} sh h (removes_entry i w e pc) = keeps refl (record {
  entries = remove-Entries owner s.next_chan s.table w.key sh h.entries;
  held = AllWorkers-erase_idx (Held owner s.next_chan) s.workers i h.held;
  looked = h.looked;
})

-- One more step.
extends :
    {owner : ℕ → Text} {s t u : System}
    → IsSharded t.table
    → Owned owner s t
    → Step t u
    → Owned owner s u
extends {owner} {s} {t} {u} sh first step =
    let last = Step-Owned sh first.owned step in
    record {
      owner' = last.owner';
      owned = last.owned;
      same = λ ch lt. last.same ch (omega (arith, first.more)) ∙ first.same ch lt;
      more = omega (arith, first.more, last.more);
    }

pub Reach-Owned :
    {owner : ℕ → Text} {s t : System} → IsAlive s → IsOwned owner s → Reach s t → Owned owner s t
Reach-Owned a h here = keeps refl h
Reach-Owned a h (next r step) = extends (Reach-IsAlive a r).sharded (Reach-Owned a h r) step

pub get-new : (k : Text) → get (new_concurrent_map {V = Item}) k ≡ none
unfolding get new_concurrent_map lookup
get-new k = rw (get_or-replicate {A = Dict Item} shard_count (shard_index k) [])

initial-IsOwned : IsOwned (λ ch. []) initial
initial-IsOwned = record {
  entries = λ k item found. absurd (none-some (sym (get-new k) ∙ found));
  held = tt;
  looked = tt;
}

pub reached-Owned : {s : System} → Reach initial s → Owned (λ ch. []) initial s
reached-Owned r = Reach-Owned (reached-IsAlive here) initial-IsOwned r

-- The command that a `delete` sends is for the goroutine of its consumer alone: however the goroutines
-- interleave, whoever waits on that channel later has the consumer's key.
pub delete_reaches-SameKey :
    {s t : System} (c : Consumer) (m : Message) (item item' : Item) (i : ℕ) (w : Worker)
    → Reach initial s
    → get s.table (get_consumer_key m c) ≡ some item
    → Reach s t
    → get_elem? t.workers i ≡ some w
    → w.pc ≡ waits item'
    → item'.read_chan ≡ item.read_chan
    → w.key ≡ get_consumer_key m c
delete_reaches-SameKey {s} {t} c m item item' i w r found later e pc chan =
    let at_s = reached-Owned r in
    let at_t = Reach-Owned (reached-IsAlive r) at_s.owned later in
    let (own, old) = at_s.owned.entries (get_consumer_key m c) item found in
    let held : HeldAt at_t.owner' t.next_chan w.key (waits item') =
      rw pc at (AllWorkers-get (Held at_t.owner' t.next_chan) t.workers i w e at_t.owned.held) in
    sym held.0 ∙ ap at_t.owner' chan ∙ at_t.same item.read_chan old ∙ own
