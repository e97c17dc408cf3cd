-- ===== src/Delivery/Base64/RoundTrip.antt =====
-- What the decoder makes of an encoded text.
use wmq.Common.{
  ℕ, ◌+◌, ◌*◌, ◌/◌, ◌%◌, ◌<◌, ◌≡◌, refl, true, false, ◌||◌, arith, nat_eq, Option, some, [], ◌∷◌,
  Text, ◌==◌,
}
use wmq.Delivery.Base64.{
  alphabet, decode_map, encode_to_string, without_newlines, first_byte, second_byte, third_byte,
  ◌>>=◌, decode_two, decode_three, decode_four, decode_quanta, decode_string, AreBytes,
}

pub encode_to_string-Empty : (s : Text) → (encode_to_string s == []) ≡ true → s ≡ []
unfolding encode_to_string ◌==◌
encode_to_string-Empty [] e = refl
encode_to_string-Empty (a ∷ []) e = cc
encode_to_string-Empty (a ∷ b ∷ []) e = cc
encode_to_string-Empty (a ∷ b ∷ c ∷ s) e = cc

decode_map-alphabet : (n : ℕ) → n < 64 → decode_map (alphabet n) ≡ some n
unfolding decode_map alphabet
decode_map-alphabet n h = ground arith

alphabet-Plain : (n : ℕ) → n < 64 → (nat_eq (alphabet n) 10 || nat_eq (alphabet n) 13) ≡ false
unfolding alphabet
alphabet-Plain n h = ground arith

alphabet-padding : (n : ℕ) → n < 64 → nat_eq (alphabet n) b'=' ≡ false
unfolding alphabet
alphabet-padding n h = ground arith

without_newlines-encode_to_string :
    (s : Text) → AreBytes s → without_newlines (encode_to_string s) ≡ encode_to_string s
unfolding without_newlines encode_to_string
without_newlines-encode_to_string [] h = refl
without_newlines-encode_to_string (a ∷ []) (ha, h) =
    rw (alphabet-Plain (a / 4) (omega arith), alphabet-Plain (a % 4 * 16) (omega arith)) refl
without_newlines-encode_to_string (a ∷ b ∷ []) (ha, (hb, h)) =
    rw
      (
        alphabet-Plain (a / 4) (omega arith),
        alphabet-Plain (a % 4 * 16 + b / 16) (omega arith),
        alphabet-Plain (b % 16 * 4) (omega arith),
      )
      refl
without_newlines-encode_to_string (a ∷ b ∷ c ∷ s) (ha, (hb, (hc, h))) =
    rw
      (
        alphabet-Plain (a / 4) (omega arith),
        alphabet-Plain (a % 4 * 16 + b / 16) (omega arith),
        alphabet-Plain (b % 16 * 4 + c / 64) (omega arith),
        alphabet-Plain (c % 64) (omega arith),
        without_newlines-encode_to_string s h,
      )
      refl

decode_four_lem :
    (x y z u : ℕ) (rest : Option Text)
    → x < 64
    → y < 64
    → z < 64
    → u < 64
    → decode_four (alphabet x) (alphabet y) (alphabet z) (alphabet u) rest
      ≡ (rest >>= λ bytes. some (first_byte x y ∷ second_byte y z ∷ third_byte z u ∷ bytes))
unfolding decode_four
decode_four_lem x y z u rest hx hy hz hu =
    rw
      (
        decode_map-alphabet x hx,
        decode_map-alphabet y hy,
        decode_map-alphabet z hz,
        decode_map-alphabet u hu,
      )
      refl

first-byte : (a b : ℕ) → a < 256 → b < 256 → first_byte (a / 4) (a % 4 * 16 + b / 16) ≡ a
first-byte a b ha hb = omega arith

last_byte : (a : ℕ) → a < 256 → first_byte (a / 4) (a % 4 * 16) ≡ a
last_byte a ha = omega arith

last_of_two : (a b : ℕ) → b < 256 → second_byte (a % 4 * 16 + b / 16) (b % 16 * 4) ≡ b
last_of_two a b hb = omega arith

second-byte :
    (a b c : ℕ) → b < 256 → c < 256 → second_byte (a % 4 * 16 + b / 16) (b % 16 * 4 + c / 64) ≡ b
second-byte a b c hb hc = omega arith

third-byte : (b c : ℕ) → c < 256 → third_byte (b % 16 * 4 + c / 64) (c % 64) ≡ c
third-byte b c hc = omega arith

decode_quanta-encode_to_string :
    (s : Text) → AreBytes s → decode_quanta (encode_to_string s) ≡ some s
unfolding decode_quanta encode_to_string decode_two decode_three ◌==◌
decode_quanta-encode_to_string [] h = refl
decode_quanta-encode_to_string (a ∷ []) (ha, h) =
    rw
      (
        decode_map-alphabet (a / 4) (omega arith),
        decode_map-alphabet (a % 4 * 16) (omega arith),
        ◌>>=◌,
        last_byte a ha,
      )
      refl
decode_quanta-encode_to_string (a ∷ b ∷ []) (ha, (hb, h)) =
    rw
      (
        alphabet-padding (b % 16 * 4) (omega arith),
        decode_map-alphabet (a / 4) (omega arith),
        decode_map-alphabet (a % 4 * 16 + b / 16) (omega arith),
        decode_map-alphabet (b % 16 * 4) (omega arith),
        ◌>>=◌,
        first-byte a b ha hb,
        last_of_two a b hb,
      )
      refl
decode_quanta-encode_to_string (a ∷ b ∷ c ∷ s) (ha, (hb, (hc, h))) =
    rw
      (
        alphabet-padding (c % 64) (omega arith),
        decode_four_lem (a / 4) (a % 4 * 16 + b / 16) (b % 16 * 4 + c / 64) (c % 64)
            (decode_quanta (encode_to_string s)) (omega arith) (omega arith) (omega arith)
            (omega arith),
        decode_quanta-encode_to_string s h,
        first-byte a b ha hb,
        second-byte a b c hb hc,
        third-byte b c hc,
      )
      refl

pub decode_string-encode_to_string :
    (s : Text) → AreBytes s → decode_string (encode_to_string s) ≡ some s
unfolding decode_string
decode_string-encode_to_string s h =
    rw (without_newlines-encode_to_string s h) (decode_quanta-encode_to_string s h)
