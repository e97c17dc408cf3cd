-- ===== src/Manager/Stale.antt =====
-- What a consumer's goroutine of message.go misses while it waits: it has read its entry before, so that neither
-- an `update` nor a `delete` after that `update` reaches it until there is a delivery.
use wmq.Common.{
  subst, ℕ, suc, ◌≡◌, ◌<◌, ◌≢◌, refl, sym, ap, ◌∙◌, inl, inr, Option, none, some, Text, ◌==◌,
  Bool-cases, get_elem?, set, nat_eq-cases, arith,
}
use wmq.ConcurrentMap.{ConcurrentMap, get, set_key, remove}
use wmq.ConcurrentMap.Invariant.{IsSharded, get-set_key, get-remove}
use wmq.Registry.{Message, Consumer, get_consumer_key}
use wmq.Manager.{
  Item, WorkerPc, writes, waits, Worker, ManagerPc, looked_up, sends, System, Step, gets_update,
  touches, replaces_entry, inserts_entry, starts_worker, gets_delete, sends_exit, finds_entry,
  misses_entry, reads_entry, writes_time, connects, delivers, takes_exit, removes_entry, update_at,
  touch, new_item,
}
use wmq.Manager.Alive.{IsAlive, Step-IsAlive}
use wmq.Manager.Channels.{none-some, AllWorkers-get, HeldAt, Held}
use wmq.Manager.Waiting.{
  Waiting, some-injective, Waiting-set, Waiting-erase_idx, Waiting-append, Waiting-only,
}
use wmq.Manager.Owners.{IsOwned, Step-Owned}

-- No entry, and not the command of the manager, has the channel.
abbrev pub Apart : ℕ → ConcurrentMap Item → Type 0
Apart ch t = (j : Text) (it : Item) → get t j ≡ some it → it.read_chan ≢ ch

abbrev pub ManagerApart : ℕ → ManagerPc → Type 0
ManagerApart ch (looked_up c m (some it)) = it.read_chan ≢ ch
ManagerApart ch (sends ch') = ch' ≢ ch
ManagerApart ch pc = Unit

-- The goroutine of the key waits on a channel that it alone still has.
pub record IsDeaf (k : Text) (item : Item) (s : System) : Type 0 where
  pub alive : IsAlive s
  pub owner : ℕ → Text
  pub owned : IsOwned owner s
  pub own : owner item.read_chan ≡ k
  pub old : item.read_chan < s.next_chan
  pub waiting : Waiting k item s.workers
  pub empty : s.commands item.read_chan ≡ 0
  pub apart : Apart item.read_chan s.table
  pub manager_apart : ManagerApart item.read_chan s.manager

-- Every step but a delivery to the goroutine of the key.
abbrev pub NotDelivery : (k : Text) {s t : System} → Step s t → Type 0
NotDelivery k (delivers i w item l e pc) = w.key ≢ k
NotDelivery k step = Unit

pub data Silent (k : Text) (s : System) : System → Type 0 where
  begins : Silent k s s
  goes : {t u : System} → Silent k s t → (step : Step t u) → NotDelivery k step → Silent k s u

set_key-Apart :
    (ch : ℕ) (t : ConcurrentMap Item) (k : Text) (it : Item)
    → IsSharded t
    → it.read_chan ≢ ch
    → Apart ch t
    → Apart ch (set_key t k it)
set_key-Apart ch t k it sh ne a j other found = elim (Bool-cases (k == j)) [
  | inl same ↦
      subst (λ x. x.read_chan ≢ ch) (some-injective (rw (get-set_key t k sh it j, same) at found))
        ne
  | inr differ ↦ a j other (rw (get-set_key t k sh it j, differ) at found)
]

remove-Apart :
    (ch : ℕ) (t : ConcurrentMap Item) (k : Text) → IsSharded t → Apart ch t → Apart ch (remove t k)
remove-Apart ch t k sh a j other found = elim (Bool-cases (k == j)) [
  | inl same ↦ absurd (none-some (rw (get-remove t k sh j, same) at found))
  | inr differ ↦ a j other (rw (get-remove t k sh j, differ) at found)
]

module _ {k : Text} {item : Item} {s : System} (h : IsDeaf k item s) where
  stays :
      {t : System}
      → Step s t
      → Waiting k item t.workers
      → t.commands item.read_chan ≡ 0
      → Apart item.read_chan t.table
      → ManagerApart item.read_chan t.manager
      → IsDeaf k item t
  stays {t} step waiting empty apart manager_apart =
      let later = Step-Owned h.alive.sharded h.owned step in
      record {
        alive = Step-IsAlive h.alive step;
        owner = later.owner';
        owned = later.owned;
        own = later.same item.read_chan h.old ∙ h.own;
        old = omega (arith, h.old, later.more);
        waiting = waiting;
        empty = empty;
        apart = apart;
        manager_apart = manager_apart;
      }

  -- A goroutine that does something else has another key.
  elsewhere :
      (i : ℕ) (w : Worker) → get_elem? s.workers i ≡ some w → (w.pc ≡ waits item → ⊥) → w.key ≢ k
  elsewhere i w e busy same =
      busy (Waiting-only k item s.table s.workers i w h.alive.have h.waiting e same)

  -- The goroutine moves on, and the rest stays.
  moves :
      (i : ℕ) (w : Worker) (pc : WorkerPc)
      → get_elem? s.workers i ≡ some w
      → w.key ≢ k
      → Waiting k item (set s.workers i (record w { pc = pc }))
  moves i w pc e ne = Waiting-set k item s.workers i w _ e ne h.waiting

  -- An entry in the hands of a goroutine of another key has another channel.
  other_chan :
      (j : Text) (it : Item) → j ≢ k → h.owner it.read_chan ≡ j → it.read_chan ≢ item.read_chan
  other_chan j it ne own same = ne (sym own ∙ ap h.owner same ∙ h.own)

  looked_up-Apart :
      (c : Consumer) (m : Message) (found : Option Item)
      → get s.table (get_consumer_key m c) ≡ found
      → ManagerApart item.read_chan (looked_up c m found)
  looked_up-Apart c m none e = tt
  looked_up-Apart c m (some it) e = h.apart (get_consumer_key m c) it e

  new_item-Apart : (c : Consumer) (m : Message) → (new_item s c m).read_chan ≢ item.read_chan
  new_item-Apart c m same = omega (arith, h.old, same)

  set-Apart :
      (j : Text) (it : Item)
      → it.read_chan ≢ item.read_chan
      → Apart item.read_chan (set_key s.table j it)
  set-Apart j it ne = set_key-Apart item.read_chan s.table j it h.alive.sharded ne h.apart

update_at-other : (f : ℕ → ℕ) (ch n j : ℕ) → ch ≢ j → update_at f ch n j ≡ f j
update_at-other f ch n j ne = elim (nat_eq-cases j ch) [
  | inl (e, t) ↦ absurd (ne (sym e))
  | inr (e, t) ↦ rw t
]

-- Whatever else happens, the goroutine goes on waiting on its channel.
Step-IsDeaf :
    {k : Text} {item : Item} {s t : System}
    → IsDeaf k item s
    → (step : Step s t) → NotDelivery k step
    → IsDeaf k item t
Step-IsDeaf h (gets_update c m e) q =
    stays h (gets_update c m e) h.waiting h.empty h.apart (looked_up-Apart h c m _ refl)
Step-IsDeaf h (touches c m it now e) q =
    stays h (touches c m it now e) h.waiting h.empty
      (set-Apart h _ (touch it now) (rw e at h.manager_apart)) tt
Step-IsDeaf h (replaces_entry c m e) q =
    stays h (replaces_entry c m e) h.waiting h.empty (set-Apart h _ _ (new_item-Apart h c m)) tt
Step-IsDeaf h (inserts_entry c m e) q =
    stays h (inserts_entry c m e) h.waiting h.empty (set-Apart h _ _ (new_item-Apart h c m)) tt
Step-IsDeaf {k} {item} {s} h (starts_worker j e) q =
    stays h (starts_worker j e) (Waiting-append k item s.workers _ h.waiting) h.empty h.apart tt
Step-IsDeaf h (gets_delete c m it e found) q =
    stays h (gets_delete c m it e found) h.waiting h.empty h.apart (h.apart _ it found)
Step-IsDeaf {k} {item} {s} h (sends_exit ch e room) q =
    stays h (sends_exit ch e room) h.waiting
      (update_at-other s.commands ch 1 item.read_chan (rw e at h.manager_apart) ∙ h.empty) h.apart
      tt
Step-IsDeaf h (finds_entry i w l it e pc found) q =
    stays h (finds_entry i w l it e pc found) (moves h i w _ e (elsewhere h i w e (λ p. cc)))
      h.empty h.apart h.manager_apart
Step-IsDeaf h (misses_entry i w l e pc missing) q =
    stays h (misses_entry i w l e pc missing) (moves h i w _ e (elsewhere h i w e (λ p. cc)))
      h.empty h.apart h.manager_apart
Step-IsDeaf h (reads_entry i w l it e pc found) q =
    stays h (reads_entry i w l it e pc found) (moves h i w _ e (elsewhere h i w e (λ p. cc)))
      h.empty h.apart h.manager_apart
Step-IsDeaf {k} {item} {s} h (writes_time i w l it now e pc) q =
    let ne = elsewhere h i w e (λ p. cc) in
    let held : HeldAt h.owner s.next_chan w.key (writes l it) =
      rw pc at (AllWorkers-get (Held h.owner s.next_chan) s.workers i w e h.owned.held) in
    stays h (writes_time i w l it now e pc) (moves h i w _ e ne) h.empty
      (set-Apart h w.key (touch it now) (other_chan h w.key it ne held.0)) h.manager_apart
Step-IsDeaf h (connects i w l e pc) q =
    stays h (connects i w l e pc) (moves h i w _ e (elsewhere h i w e (λ p. cc))) h.empty h.apart
      h.manager_apart
Step-IsDeaf h (delivers i w it l e pc) q =
    stays h (delivers i w it l e pc) (moves h i w _ e q) h.empty h.apart h.manager_apart
Step-IsDeaf {k} {item} {s} h (takes_exit i w it n e pc full) q =
    let held : HeldAt h.owner s.next_chan w.key (waits it) =
      rw pc at (AllWorkers-get (Held h.owner s.next_chan) s.workers i w e h.owned.held) in
    let ne = elsewhere h i w e (λ p. taken (sym pc ∙ p) full) in
    stays h (takes_exit i w it n e pc full) (moves h i w _ e ne)
      (update_at-other s.commands it.read_chan n item.read_chan (other_chan h w.key it ne held.0)
        ∙ h.empty)
      h.apart h.manager_apart
  where
    waits-injective : {a b : Item} → waits a ≡ waits b → a ≡ b
    waits-injective e = cc

    zero-suc : {n : ℕ} → 0 ≡ suc n → ⊥
    zero-suc e = omega arith

    taken : {a : Item} {n : ℕ} → waits a ≡ waits item → s.commands a.read_chan ≡ suc n → ⊥
    taken same full =
        zero-suc
          (sym h.empty ∙ ap (λ x. s.commands x.read_chan) (sym (waits-injective same)) ∙ full)
Step-IsDeaf {k} {item} {s} h (removes_entry i w e pc) q =
    let ne = elsewhere h i w e (λ p. cc) in
    stays h (removes_entry i w e pc) (Waiting-erase_idx k item s.workers i w e ne h.waiting) h.empty
      (remove-Apart item.read_chan s.table w.key h.alive.sharded h.apart) h.manager_apart

pub Silent-IsDeaf :
    {k : Text} {item : Item} {s t : System} → IsDeaf k item s → Silent k s t → IsDeaf k item t
Silent-IsDeaf h begins = h
Silent-IsDeaf h (goes r step q) = Step-IsDeaf (Silent-IsDeaf h r) step q
