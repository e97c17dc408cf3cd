-- ===== src/Manager/Goroutine/AtLeastOnce.antt =====
-- That a consumer's goroutine (message.go) loses no message, over all its connections.
use wmq.Common.{ℕ, ◌⊎◌, List, [], ◌∷◌}
use wmq.Delivery.{Json, Client}
use wmq.Manager.Consume.AtLeastOnce.{Handed}
use wmq.Manager.Goroutine.{Session, gone, found}

-- In one of these sessions the message was dropped, or delivered to the consumer.
abbrev pub HandedIn : {W J : Type 0} → Json J → Client W → ℕ → List Session → Type 0
HandedIn json client tag [] = ⊥
HandedIn json client tag (gone ∷ xs) = ⊥
HandedIn json client tag (found c m es ∷ xs) =
    Handed json client tag es ⊎ HandedIn json client tag xs
