-- ===== src/Start/Decimal.antt =====
-- The number that `%d` prints in the address of RabbitMQ (wmq.go).
use wmq.Common.{
  ℕ, zero, suc, ◌+◌, ◌*◌, ◌/◌, ◌%◌, ◌≡◌, ◌≤◌, ◌<◌, refl, ap, ◌∙◌, inl, inr, true, false, some, [],
  ◌∷◌, Text, ltb, nat_eq, Bool-cases, arith,
}
use wmq.Registry.{pos}
use wmq.Api.Numbers.{digits, is_digit, max_int, unsigned, atoi}
use wmq.Start.{format_digits, format_int}

digits-digit : (n d : ℕ) (s : Text) → d < 10 → digits n ((b'0' + d) ∷ s) ≡ digits (n * 10 + d) s
unfolding digits
digits-digit n d s h =
    let is : is_digit (b'0' + d) ≡ true = ground arith in rw is (ap (λ x. digits x s) (omega arith))

digits-format_digits :
    (fuel n : ℕ) (s : Text) → n ≤ fuel → digits 0 (format_digits fuel n s) ≡ digits n s
unfolding format_digits
digits-format_digits zero n s h =
    digits-digit 0 (n % 10) s (omega arith) ∙ ap (λ x. digits x s) (omega arith)
digits-format_digits (suc fuel) n s h = elim (Bool-cases (ltb n 10)) [
  | inl small ↦
      rw (small, format_digits)
        (digits-digit 0 (n % 10) s (omega arith) ∙ ap (λ x. digits x s) (ground arith))
  | inr large ↦
      rw (large, format_digits)
        (digits-format_digits fuel (n / 10) ((b'0' + n % 10) ∷ s) (ground arith)
          ∙ digits-digit (n / 10) (n % 10) s (omega arith)
          ∙ ap (λ x. digits x s) (omega arith))
]

starts_with_digit :
    (fuel n : ℕ) (s : Text)
    → (c : ℕ) × (rest : Text) × (format_digits fuel n s ≡ c ∷ rest) × (b'0' ≤ c)
unfolding format_digits
starts_with_digit zero n s = (b'0' + n % 10, s, refl, omega arith)
starts_with_digit (suc fuel) n s = elim (Bool-cases (ltb n 10)) [
  | inl small ↦ rw (small, format_digits) (b'0' + n % 10, s, refl, omega arith)
  | inr large ↦ rw (large, format_digits) (starts_with_digit fuel (n / 10) ((b'0' + n % 10) ∷ s))
]

unsigned-digits :
    {s : Text} (c : ℕ) (rest : Text) (n : ℕ)
    → s ≡ c ∷ rest
    → digits 0 s ≡ some n
    → unsigned s ≡ some n
unfolding unsigned
unsigned-digits c rest n e h = rw e (rw e at h)

atoi-digit :
    (c : ℕ) (rest : Text) (n : ℕ)
    → b'0' ≤ c
    → n ≤ max_int
    → unsigned (c ∷ rest) ≡ some n
    → atoi (c ∷ rest) ≡ pos n
unfolding atoi
atoi-digit c rest n digit h read =
    let minus : nat_eq c b'-' ≡ false = ground arith in
    let plus : nat_eq c b'+' ≡ false = ground arith in
    let fits : ltb max_int n ≡ false = ground arith in rw (minus, plus, read, fits)

-- A number is printed with all its digits: `strconv.Atoi` reads a port, or any number up to the largest
-- `int`, back from the text.
pub atoi-format_int : (n : ℕ) → n ≤ max_int → atoi (format_int (pos n)) ≡ pos n
unfolding format_int atoi
atoi-format_int n h =
    let (c, rest, printed, digit) = starts_with_digit n n [] in
    let read : unsigned (format_digits n n []) ≡ some n =
      unsigned-digits c rest n printed (digits-format_digits n n [] (omega arith)) in
    rw printed (atoi-digit c rest n digit h (rw printed at read))
