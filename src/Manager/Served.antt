-- ===== src/Manager/Served.antt =====
-- The consumer manager of message.go while no goroutine of a consumer moves: what an `update` comes to.
pub mod Start
use wmq.Common.{
  subst, ℕ, zero, suc, ◌≡◌, refl, sym, ap, ◌∙◌, inl, inr, ◌⊎◌, true, Option, none, some, List, [],
  ◌∷◌, ◌++◌, Text, is_some, Bool, false, ◌==◌, ==_iff, ==_refl, Bool-cases, Option-cases,
}
use wmq.ConcurrentMap.{ConcurrentMap, get, set_key}
use wmq.ConcurrentMap.Invariant.{IsSharded, get-set_key, set_key-IsSharded}
use wmq.Registry.{Message, Consumer, get_consumer_key}
use wmq.Manager.{
  Item, outer, checks, Worker, idle, looked_up, replaces, System, Step, gets_update, touches,
  replaces_entry, inserts_entry, starts_worker, Reach, here, next, initial, touch, new_item,
  write_new,
}
use wmq.Manager.Orphans.{joins}
use wmq.Manager.Alive.{IsAlive, reached-IsAlive}
use wmq.Manager.Owners.{get-new}
use wmq.Manager.Updates.{updated}

-- The case `update` of the manager's `switch`, all of its steps.
unfoldable pub update_alone : Consumer → Message → System → System
update_alone c m s = elim (get s.table (get_consumer_key m c)) [
  | some it ↦ updated s c m it
  | none ↦ record (write_new s c m idle) {
    workers = s.workers ++ record { key = get_consumer_key m c; pc = checks outer } ∷ [];
  }
]

-- The key has a goroutine.
abbrev pub HasWorker : Text → List Worker → Type 0
HasWorker k [] = ⊥
HasWorker k (w ∷ ws) = (w.key ≡ k) ⊎ HasWorker k ws

HasWorker-append :
    (k : Text) (ws : List Worker) (w : Worker) → HasWorker k ws → HasWorker k (ws ++ w ∷ [])
HasWorker-append k [] w h = absurd h
HasWorker-append k (x ∷ ws) w (inl same) = inl same
HasWorker-append k (x ∷ ws) w (inr h) = inr (HasWorker-append k ws w h)

HasWorker-last : (ws : List Worker) (w : Worker) → HasWorker w.key (ws ++ w ∷ [])
HasWorker-last [] w = inl refl
HasWorker-last (x ∷ ws) w = inr (HasWorker-last ws w)

-- The manager waits for a command, and no entry has outlived its goroutine.
pub record IsReady (s : System) : Type 0 where
  pub reached : Reach initial s
  pub still : s.manager ≡ idle
  pub served : (k : Text) → is_some (get s.table k) ≡ true → HasWorker k s.workers

-- It is ready again, every goroutine is still there, and so is one of the consumer.
pub record Updated (c : Consumer) (m : Message) (s t : System) : Type 0 where
  pub ready : IsReady t
  pub grows : (k : Text) → HasWorker k s.workers → HasWorker k t.workers
  pub served : HasWorker (get_consumer_key m c) t.workers

pub initial-IsReady : IsReady initial
initial-IsReady = record {
  reached = here;
  still = refl;
  served = λ k found. absurd (none_found (ap is_some (get-new k)) found);
}
  where
    none_found : {b : Bool} → b ≡ false → b ≡ true → ⊥
    none_found e e' = cc

-- The keys of a map have goroutines.
abbrev AllServed : ConcurrentMap Item → List Worker → Type 0
AllServed t ws = (k : Text) → is_some (get t k) ≡ true → HasWorker k ws

set_key-AllServed :
    (t : ConcurrentMap Item) (j : Text) (it : Item) (ws : List Worker)
    → IsSharded t
    → AllServed t ws
    → HasWorker j ws
    → AllServed (set_key t j it) ws
set_key-AllServed t j it ws sh old own k found = elim (Bool-cases (j == k)) [
  | inl same ↦ subst (λ x. HasWorker x ws) ((==_iff j k).0 same) own
  | inr other ↦ old k (rw (get-set_key t j sh it k, other) at found)
]

module _ (c : Consumer) (m : Message) (s : System) (h : IsReady s) where
  sharded : IsSharded s.table
  sharded = (reached-IsAlive h.reached).sharded

  -- The consumer is new: it gets an entry and a goroutine.
  update_alone-none : get s.table (get_consumer_key m c) ≡ none → Updated c m s (update_alone c m s)
  unfolding update_alone
  update_alone-none missing =
      let k = get_consumer_key m c in
      let w : Worker = record { key = k; pc = checks outer } in
      rw (missing, update_alone)
        (record {
          ready = record {
            reached =
                next
                  (next (next h.reached (gets_update c m h.still))
                    (inserts_entry c m (ap (looked_up c m) missing)))
                  (starts_worker k refl);
            still = refl;
            served =
                set_key-AllServed s.table k (new_item s c m) (s.workers ++ w ∷ []) sharded
                  (λ j old. HasWorker-append j s.workers w (h.served j old))
                  (HasWorker-last s.workers w);
          };
          grows = λ j. HasWorker-append j s.workers w;
          served = HasWorker-last s.workers w;
        })

  -- It has an entry, and a goroutine, and gets a new entry.
  update_alone-some :
      (it : Item)
      → get s.table (get_consumer_key m c) ≡ some it
      → Updated c m s (update_alone c m s)
  unfolding update_alone
  update_alone-some it found =
      let k = get_consumer_key m c in
      let own = h.served k (ap is_some found) in
      let first = set_key-AllServed s.table k (touch it 0) s.workers sharded h.served own in
      rw (found, update_alone)
        (record {
          ready = record {
            reached =
                next
                  (next (next h.reached (gets_update c m h.still))
                    (touches c m it 0 (ap (looked_up c m) found)))
                  (replaces_entry c m refl);
            still = refl;
            served =
                set_key-AllServed (set_key s.table k (touch it 0)) k (new_item s c m) s.workers
                  (set_key-IsSharded s.table k sharded (touch it 0)) first own;
          };
          grows = λ j old. old;
          served = own;
        })

  pub update_alone-Updated : Updated c m s (update_alone c m s)
  update_alone-Updated = elim (Option-cases (get s.table (get_consumer_key m c))) [
    | inl missing ↦ update_alone-none missing
    | inr (it, found) ↦ update_alone-some it found
  ]
