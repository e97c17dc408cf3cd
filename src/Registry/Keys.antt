-- ===== src/Registry/Keys.antt =====
-- `getConsumerKey` (message.go), the name of a consumer's queue and of its entry in the manager.
use wmq.Common.{ℕ, ◌≡◌, refl, ap₂, ◌≢◌, sym, [], ◌∷◌, ◌++◌, Text}
use wmq.Registry.{Message, Consumer, get_consumer_key}

-- No `-` in the text.
abbrev pub NoDash : Text → Type 0
NoDash [] = Unit
NoDash (c ∷ s) = (c ≢ b'-') × NoDash s

heads : {a b : ℕ} {s t : Text} → a ∷ s ≡ b ∷ t → a ≡ b
heads e = cc

tails : {a b : ℕ} {s t : Text} → a ∷ s ≡ b ∷ t → s ≡ t
tails e = cc

-- Texts with a dash after a part without one.
split_equal :
    (a b s t : Text) → NoDash a → NoDash b → a ++ b'-' ∷ s ≡ b ++ b'-' ∷ t → (a ≡ b) × (s ≡ t)
split_equal [] [] s t ha hb e = (refl, tails e)
split_equal [] (y ∷ b) s t ha hb e = absurd (hb.0 (sym (heads e)))
split_equal (x ∷ a) [] s t ha hb e = absurd (ha.0 (heads e))
split_equal (x ∷ a) (y ∷ b) s t ha hb e =
    let (same, rest) = split_equal a b s t ha.1 hb.1 (tails e) in (ap₂ ◌∷◌ (heads e) same, rest)

-- When the names of two messages have no dash, consumers of theirs with one key have one
-- identifier, and the messages have one name.
pub get_consumer_key-NoDash :
    (m m' : Message) (c c' : Consumer)
    → NoDash m.name
    → NoDash m'.name
    → get_consumer_key m c ≡ get_consumer_key m' c'
    → (m.name ≡ m'.name) × (c.id ≡ c'.id)
get_consumer_key-NoDash m m' c c' h h' e = split_equal m.name m'.name c.id c'.id h h' e
