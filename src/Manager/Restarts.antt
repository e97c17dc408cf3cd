-- ===== src/Manager/Restarts.antt =====
-- A `delete` and an `update` of one consumer, one right after the other, as `restart` and `updateMessage` of
-- message.go send them.
use wmq.Common.{ℕ}
use wmq.Manager.{idle, System, update_at}

-- The manager has sent the command of a `delete`.
abbrev pub told_on : System → ℕ → System
told_on s ch = record s { manager = idle; commands = update_at s.commands ch 1 }
