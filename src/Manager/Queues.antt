-- ===== src/Manager/Queues.antt =====
-- The queues of the broker beside the goroutines of message.go: a goroutine declares its queue when it connects, and
-- `deleteConsumer` deletes the queue once the manager has answered.
use wmq.Common.{ℕ, ◌≡◌, Bool, true, false, some, Text, ◌==◌, get_elem?, if◌then◌else◌}
use wmq.Manager.{
  outer, inner, checks, connecting, Worker, idle, System, Step, connects, Reach, initial, move,
}

-- Which queues there are, by the keys of their consumers.
pub record Joint : Type 0 where
  pub system : System
  pub queues : Text → Bool

abbrev pub put_queue : (Text → Bool) → Text → Bool → Text → Bool
put_queue q k b j = if k == j then b else q j

-- The steps that do not touch a queue.
abbrev pub IsQuiet : {s t : System} → Step s t → Type 0
IsQuiet (connects i w l e pc) = ⊥
IsQuiet step = Unit

pub data JointStep (j : Joint) : Joint → Type 0 where
  runs :
      {t : System} (step : Step j.system t) → IsQuiet step → JointStep j (record j { system = t })
  -- An attempt to connect fails, before or after it has declared the queue.
  fails :
      (i : ℕ) (w : Worker) (declared : Bool)
      → get_elem? j.system.workers i ≡ some w
      → w.pc ≡ connecting
      → JointStep j (record {
        system = move j.system i w (checks outer);
        queues = if declared then put_queue j.queues w.key true else j.queues;
      })
  succeeds :
      (i : ℕ) (w : Worker)
      → get_elem? j.system.workers i ≡ some w
      → w.pc ≡ connecting
      → JointStep j (record {
        system = move j.system i w (checks inner);
        queues = put_queue j.queues w.key true;
      })
  -- `deleteQueue`, in `deleteConsumer`.
  deletes_queue :
      (k : Text)
      → j.system.manager ≡ idle
      → JointStep j (record j { queues = put_queue j.queues k false })

pub data JointReach (j : Joint) : Joint → Type 0 where
  stops : JointReach j j
  goes : {t u : Joint} → JointReach j t → JointStep t u → JointReach j u

abbrev pub no_queues : Joint
no_queues = record { system = initial; queues = λ k. false }

-- What the manager and the goroutines do there is what they do without the queues.
JointStep-Step : {s : System} {t u : Joint} → Reach s t.system → JointStep t u → Reach s u.system
JointStep-Step r (runs step quiet) = Reach.next r step
JointStep-Step r (fails i w declared e pc) = Reach.next r (connects i w outer e pc)
JointStep-Step r (succeeds i w e pc) = Reach.next r (connects i w inner e pc)
JointStep-Step r (deletes_queue k e) = r

pub JointReach-Reach :
    {s : System} {t u : Joint} → Reach s t.system → JointReach t u → Reach s u.system
JointReach-Reach r stops = r
JointReach-Reach r (goes q step) = JointStep-Step (JointReach-Reach r q) step

-- A step of theirs, after which every queue is still there.
record Lifted (j : Joint) (t : System) : Type 0 where
  queues : Text → Bool
  reached : JointReach j (record { system = t; queues = queues })
  kept : (k : Text) → j.queues k ≡ true → queues k ≡ true

quiet : (j : Joint) {t : System} (step : Step j.system t) → IsQuiet step → Lifted j t
quiet j step h = record {
  queues = j.queues;
  reached = goes stops (runs step h);
  kept = λ k old. old;
}

pub joint_joins : {j t u : Joint} → JointReach j t → JointReach t u → JointReach j u
joint_joins r stops = r
joint_joins r (goes q step) = goes (joint_joins r q) step
