-- ===== src/Manager/Stuck.antt =====
-- How the consumer manager of message.go comes to wait for ever: a second `delete` of a consumer of which the
-- goroutine has ended finds its channel full. The caller holds `msgLock` meanwhile.
use wmq.Common.{ℕ, suc, ◌≡◌, ◌<◌, Text}
use wmq.Manager.{sends, System, Reach}
use wmq.Manager.Alive.{IsAlive}
use wmq.Manager.Orphans.{IsOrphan}
use wmq.Manager.Owners.{IsOwned}

-- The manager sends on a full channel, which belongs to a consumer without a goroutine.
pub record IsStuck (k : Text) (ch : ℕ) (s : System) : Type 0 where
  pub sending : s.manager ≡ sends ch
  pub left : ℕ
  pub full : s.commands ch ≡ suc left
  pub alive : IsAlive s
  pub orphan : IsOrphan k s
  pub owner : ℕ → Text
  pub owned : IsOwned owner s
  pub own : owner ch ≡ k
  pub old : ch < s.next_chan

-- The manager waits for ever, whatever the others do.
abbrev pub Blocked : ℕ → System → Type 0
Blocked ch s = (t : System) → Reach s t → t.manager ≡ sends ch
