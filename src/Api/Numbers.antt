-- ===== src/Api/Numbers.antt =====
-- The tests and the conversion that api.go makes of the arguments `Code` and `Timeout`.
pub mod Codes
use wmq.Common.{
  ℕ, suc, ◌+◌, ◌-◌, ◌*◌, ◌^◌, ◌≤◌, ◌≡◌, refl, Bool, true, false, ◌&&◌, ◌||◌, Option, none, some,
  List, [], ◌∷◌, Text, arith, leb, ltb, nat_eq, if◌then◌else◌,
}
use wmq.Registry.{Number, pos, negsuc}

abbrev pub is_digit : ℕ → Bool
is_digit c = leb b'0' c && leb c b'9'

abbrev pub is_nonzero_digit : ℕ → Bool
is_nonzero_digit c = leb b'1' c && leb c b'9'

abbrev starts_with_digit : Text → Bool
starts_with_digit [] = false
starts_with_digit (c ∷ s) = is_digit c

-- `regexp.Match` of `[1-9]\d{1,2}`: the pattern may match anywhere in the text.
unfoldable pub matches_code : Text → Bool
matches_code [] = false
matches_code (c ∷ s) = (is_nonzero_digit c && starts_with_digit s) || matches_code s

-- `regexp.Match` of `[1-9]\d*`.
unfoldable pub matches_timeout : Text → Bool
matches_timeout [] = false
matches_timeout (c ∷ s) = is_nonzero_digit c || matches_timeout s

-- The digits from a value on; `none` when another byte is met.
unfoldable pub digits : ℕ → Text → Option ℕ
digits n [] = some n
digits n (c ∷ s) = let rest = digits (n * 10 + (c - b'0')) s in if is_digit c then rest else none

abbrev pub max_int : ℕ
max_int = 2 ^ 63 - 1

abbrev negate : ℕ → Number
negate n = if nat_eq n 0 then pos 0 else negsuc (n - 1)

-- The value out of range is the nearest one in range; 0 where the text is no number.
abbrev pub clamped : Bool → Option ℕ → Number
clamped minus none = pos 0
clamped true (some n) = negate (if ltb (max_int + 1) n then max_int + 1 else n)
clamped false (some n) = pos (if ltb max_int n then max_int else n)

unfoldable pub unsigned : Text → Option ℕ
unfolding digits
unsigned [] = none
unsigned (c ∷ s) = digits 0 (c ∷ s)

-- The value that `strconv.Atoi` returns, whatever the error. An `int` has 64 bits.
unfoldable pub atoi : Text → Number
unfolding unsigned
atoi [] = pos 0
atoi (c ∷ s) =
    if nat_eq c b'-'
    then clamped true (unsigned s)
    else if nat_eq c b'+'
    then clamped false (unsigned s)
    else clamped false (unsigned (c ∷ s))
