-- ===== src/Delivery/Base64.antt =====
-- `base64.StdEncoding` of Go's standard library, which api.go and message.go call. A text is a list
-- of bytes.
pub mod RoundTrip
use wmq.Common.{
  ℕ, ◌+◌, ◌-◌, ◌*◌, ◌/◌, ◌%◌, ◌<◌, ◌≡◌, refl, true, false, ◌&&◌, ◌||◌, arith, ltb, leb, nat_eq,
  if◌then◌else◌, Option, none, some, [], ◌∷◌, Text, ◌==◌,
}

-- The character of a value below 64.
unfoldable pub alphabet : ℕ → ℕ
alphabet n =
    if ltb n 26
    then b'A' + n
    else if ltb n 52
    then b'a' + (n - 26)
    else if ltb n 62
    then b'0' + (n - 52)
    else if nat_eq n 62
    then b'+'
    else b'/'

unfoldable pub decode_map : ℕ → Option ℕ
decode_map c =
    if leb b'A' c && leb c b'Z'
    then some (c - b'A')
    else if leb b'a' c && leb c b'z'
    then some (c - b'a' + 26)
    else if leb b'0' c && leb c b'9'
    then some (c - b'0' + 52)
    else if nat_eq c b'+'
    then some 62
    else if nat_eq c b'/'
    then some 63
    else none

unfoldable pub encode_to_string : Text → Text
unfolding alphabet
encode_to_string [] = []
encode_to_string (a ∷ []) = alphabet (a / 4) ∷ alphabet (a % 4 * 16) ∷ b'=' ∷ b'=' ∷ []
encode_to_string (a ∷ b ∷ []) =
    alphabet (a / 4) ∷ alphabet (a % 4 * 16 + b / 16) ∷ alphabet (b % 16 * 4) ∷ b'=' ∷ []
encode_to_string (a ∷ b ∷ c ∷ s) =
    alphabet (a / 4)
    ∷ alphabet (a % 4 * 16 + b / 16)
    ∷ alphabet (b % 16 * 4 + c / 64)
    ∷ alphabet (c % 64)
    ∷ encode_to_string s

-- The decoder passes over ends of lines.
unfoldable pub without_newlines : Text → Text
without_newlines [] = []
without_newlines (c ∷ s) =
    let rest = without_newlines s in if nat_eq c 10 || nat_eq c 13 then rest else c ∷ rest

abbrev pub first_byte : ℕ → ℕ → ℕ
first_byte x y = x * 4 + y / 16

abbrev pub second_byte : ℕ → ℕ → ℕ
second_byte y z = y % 16 * 16 + z / 4

abbrev pub third_byte : ℕ → ℕ → ℕ
third_byte z u = z % 4 * 64 + u

infixl 5 ◌>>=◌
abbrev pub ◌>>=◌ : {A B : Type 0} → Option A → (A → Option B) → Option B
none >>= f = none
some a >>= f = f a

-- The bytes of four characters, of which two, one or none is padding; the bits under the padding
-- are not looked at.
unfoldable pub decode_two : ℕ → ℕ → Option Text
unfolding decode_map
decode_two p q = do x ← decode_map p; y ← decode_map q; some (first_byte x y ∷ [])

unfoldable pub decode_three : ℕ → ℕ → ℕ → Option Text
unfolding decode_map
decode_three p q r = do
  x ← decode_map p
  y ← decode_map q
  z ← decode_map r
  some (first_byte x y ∷ second_byte y z ∷ [])

unfoldable pub decode_four : ℕ → ℕ → ℕ → ℕ → Option Text → Option Text
unfolding decode_map
decode_four p q r t rest = do
  x ← decode_map p
  y ← decode_map q
  z ← decode_map r
  u ← decode_map t
  bytes ← rest
  some (first_byte x y ∷ second_byte y z ∷ third_byte z u ∷ bytes)

-- Padding stands in the last four characters only.
unfoldable pub decode_quanta : Text → Option Text
unfolding decode_two decode_three decode_four
decode_quanta [] = some []
decode_quanta (p ∷ []) = none
decode_quanta (p ∷ q ∷ []) = none
decode_quanta (p ∷ q ∷ r ∷ []) = none
decode_quanta (p ∷ q ∷ r ∷ t ∷ s) =
    let rest = decode_quanta s in
    if nat_eq t b'='
    then if s == [] then if nat_eq r b'=' then decode_two p q else decode_three p q r else none
    else decode_four p q r t rest

unfoldable pub decode_string : Text → Option Text
unfolding decode_quanta without_newlines
decode_string s = decode_quanta (without_newlines s)

abbrev pub AreBytes : Text → Type 0
AreBytes [] = Unit
AreBytes (b ∷ s) = (b < 256) × AreBytes s
