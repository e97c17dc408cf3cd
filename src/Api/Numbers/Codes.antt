-- ===== src/Api/Numbers/Codes.antt =====
-- Which texts the API (api.go) takes for a status code or a time-out, and what they become.
use wmq.Common.{
  ℕ, ◌+◌, ◌-◌, ◌*◌, ◌≤◌, ◌≡◌, refl, ◌∙◌, true, false, some, [], ◌∷◌, Text, arith, nat_eq, inl, inr,
  Bool-cases,
}
use wmq.Registry.{pos}
use wmq.Api.Numbers.{
  is_digit, is_nonzero_digit, matches_code, digits, unsigned, clamped, atoi, max_int,
}

-- The text has digits only.
abbrev pub AllDigits : Text → Type 0
AllDigits [] = Unit
AllDigits (c ∷ s) = (is_digit c ≡ true) × AllDigits s

-- The value in base ten.
abbrev pub value : ℕ → Text → ℕ
value n [] = n
value n (c ∷ s) = value (n * 10 + (c - b'0')) s

digits-AllDigits : (n : ℕ) (s : Text) → AllDigits s → digits n s ≡ some (value n s)
unfolding digits
digits-AllDigits n [] h = refl
digits-AllDigits n (c ∷ s) h = rw h.0 (digits-AllDigits (n * 10 + (c - b'0')) s h.1)

grows : (n : ℕ) (s : Text) → n ≤ value n s
grows n [] = omega arith
grows n (c ∷ s) = let more = grows (n * 10 + (c - b'0')) s in omega (arith, more)

two_digits :
    (n c x : ℕ) (s : Text) → 49 ≤ c → 10 ≤ value ((n * 10 + (c - b'0')) * 10 + (x - b'0')) s
two_digits n c x s h =
    let more = grows ((n * 10 + (c - b'0')) * 10 + (x - b'0')) s in omega (arith, more, h)

code_grows : (n : ℕ) (s : Text) → matches_code s ≡ true → AllDigits s → 10 ≤ value n s
unfolding matches_code
code_grows n [] h d = cc
code_grows n (c ∷ []) h d = ground arith
code_grows n (c ∷ x ∷ s) h d = elim (Bool-cases (is_nonzero_digit c)) [
  | inl nonzero ↦ two_digits n c x s (ground arith)
  | inr other ↦ code_grows (n * 10 + (c - b'0')) (x ∷ s) (rw (← h, other)) d.1
]

first_digit :
    (c : ℕ) (s : Text) → is_digit c ≡ true → atoi (c ∷ s) ≡ clamped false (digits 0 (c ∷ s))
unfolding atoi unsigned
first_digit c s h = ground arith

-- A code of digits alone that the API accepts is stored as the number that it shows, which is 10 or
-- more, as long as an `int` holds it.
pub atoi-AllDigits :
    (s : Text)
    → AllDigits s
    → matches_code s ≡ true
    → value 0 s ≤ max_int
    → (atoi s ≡ pos (value 0 s)) × (10 ≤ value 0 s)
unfolding matches_code
atoi-AllDigits [] d h small = cc
atoi-AllDigits (c ∷ s) d h small = (
  first_digit c s d.0 ∙ rw (digits-AllDigits 0 (c ∷ s) d) (ground arith),
  code_grows 0 (c ∷ s) h d,
)

-- A code with another byte before a code is accepted too, but stored as 0.
pub matches_code-unsigned :
    (c : ℕ) (s : Text)
    → is_digit c ≡ false
    → nat_eq c b'-' ≡ false
    → nat_eq c b'+' ≡ false
    → matches_code s ≡ true
    → (matches_code (c ∷ s) ≡ true) × (atoi (c ∷ s) ≡ pos 0)
unfolding matches_code atoi unsigned digits
matches_code-unsigned c s other minus plus h = (ground arith, rw (minus, plus, other))
