-- ===== src/Start/Logs/Names.antt =====
-- `inArray` of utils.go, and the files that logger.go chooses by it.
use wmq.Common.{
  ℕ, zero, suc, ◌+◌, ◌<◌, ◌≡◌, refl, sym, ap, ◌∙◌, ◌≢◌, ◌⊎◌, inl, inr, Bool, true, false, some,
  List, [], ◌∷◌, Text, text, ◌==◌, ==_iff, ==_refl, get_elem?, arith, Bool-cases,
}
use wmq.Common.Dict.{Dict, lookup, lookup-insert}
use wmq.Registry.{Number, pos, negsuc}
use wmq.Start.Logs.{
  Levels, all_levels, info_level, warn_level, error_level, fatal_level, ◌∪◌, in_array_from,
  in_array, put_if, file_names,
}
use wmq.Start.Logs.Levels.{true-false}

abbrev InArray : ℕ → Text → List Text → Bool × Number → Type 0
InArray k val xs r =
    ((i : ℕ) × (r ≡ (true, pos (k + i)))
      × (get_elem? xs i ≡ some val)
      × ((j : ℕ) → j < i → get_elem? xs j ≢ some val))
    ⊎ ((r ≡ (false, negsuc 0)) × ((j : ℕ) → get_elem? xs j ≢ some val))

differs : (val x : Text) → (val == x) ≡ false → some x ≢ some val
differs val x other e = true-false (sym (==_refl x) ∙ ap (λ y. y == x) (some-injective e) ∙ other)
  where
    some-injective : {a b : Text} → some a ≡ some b → a ≡ b
    some-injective h = cc

not_before :
    (val x : Text) (xs : List Text) (i : ℕ)
    → (val == x) ≡ false
    → ((j : ℕ) → j < i → get_elem? xs j ≢ some val)
    → (j : ℕ) → j < suc i
    → get_elem? (x ∷ xs) j ≢ some val
not_before val x xs i other first zero h = differs val x other
not_before val x xs i other first (suc j) h = first j (omega arith)

nowhere :
    (val x : Text) (xs : List Text)
    → (val == x) ≡ false
    → ((j : ℕ) → get_elem? xs j ≢ some val)
    → (j : ℕ) → get_elem? (x ∷ xs) j ≢ some val
nowhere val x xs other absent zero = differs val x other
nowhere val x xs other absent (suc j) = absent j

in_array_from_lem :
    (k : ℕ) (val : Text) (xs : List Text) → InArray k val xs (in_array_from k val xs)
unfolding in_array_from
in_array_from_lem k val [] = inr (refl, λ j e. cc)
in_array_from_lem k val (x ∷ xs) = elim (Bool-cases (val == x)) [
  | inl same ↦ rw same (
      inl (
        0,
        ap (λ n. (true, pos n)) (omega arith),
        ap some (sym ((==_iff val x).0 same)),
        λ j h e. omega arith,
      ))
  | inr other ↦ elim (in_array_from_lem (k + 1) val xs) [
    | inl (i, e, found, first) ↦ rw other (
        inl (
          suc i,
          e ∙ ap (λ n. (true, pos n)) (omega arith),
          found,
          not_before val x xs i other first,
        ))
    | inr (e, absent) ↦ rw other (inr (e, nowhere val x xs other absent))
  ]
]

-- `inArray` gives the first index at which the value stands, and -1 when it stands at none.
pub in_array_lem :
    (val : Text) (xs : List Text)
    → ((i : ℕ) × (in_array val xs ≡ (true, pos i))
        × (get_elem? xs i ≡ some val)
        × ((j : ℕ) → j < i → get_elem? xs j ≢ some val))
      ⊎ ((in_array val xs ≡ (false, negsuc 0)) × ((j : ℕ) → get_elem? xs j ≢ some val))
unfolding in_array
in_array_lem val xs = elim (in_array_from_lem 0 val xs) [
  | inl (i, e, found, first) ↦ inl (i, e ∙ ap (λ n. (true, pos n)) (omega arith), found, first)
  | inr h ↦ inr h
]

ne_of : (a b : Text) → (a == b) ≡ false → a ≢ b
ne_of a b h e = true-false (sym (==_refl a) ∙ ap (λ y. a == y) e ∙ h)

pub info_ne_debug : text "info" ≢ text "debug"
unfolding ◌==◌
info_ne_debug = ne_of (text "info") (text "debug") refl

error_ne_debug : text "error" ≢ text "debug"
unfolding ◌==◌
error_ne_debug = ne_of (text "error") (text "debug") refl

put_if-lookup :
    (set : Bool) (name file : Text) (levels : Levels) (d : Dict Levels)
    → (name ≡ file → lookup name d ≡ some levels)
    → lookup file (put_if set name levels d) ≡ lookup file d
put_if-lookup false name file levels d has = refl
put_if-lookup true name file levels d has = elim (Bool-cases (name == file)) [
  | inl same ↦
      let e = (==_iff name file).0 same in
      rw (lookup-insert name file levels d, same) (sym (has e) ∙ ap (λ f. lookup f d) e)
  | inr other ↦ rw (lookup-insert name file levels d, other)
]

-- The configured levels decide of the file `debug` only: the files `info` and `error`, which the logger has
-- by default, are written whether or not their names are configured.
file_names-lookup :
    (levels : List Text) (names : Dict Levels) (file : Text)
    → lookup (text "info") names ≡ some info_level
    → lookup (text "error") names ≡ some (warn_level ∪ error_level ∪ fatal_level)
    → file ≢ text "debug"
    → lookup file (file_names levels names) ≡ lookup file names
unfolding file_names
file_names-lookup levels names file has_info has_error other =
    let d₁ = put_if (in_array (text "debug") levels).0 (text "debug") all_levels names in
    let d₂ = put_if (in_array (text "info") levels).0 (text "info") info_level d₁ in
    let first : (f : Text) → f ≢ text "debug" → lookup f d₁ ≡ lookup f names = λ f h.
      put_if-lookup (in_array (text "debug") levels).0 (text "debug") f all_levels names
        (λ e. absurd (h (sym e))) in
    let second : (f : Text) → f ≢ text "debug" → lookup f d₂ ≡ lookup f names = λ f h.
      put_if-lookup (in_array (text "info") levels).0 (text "info") f info_level d₁
        (λ e. first (text "info") info_ne_debug ∙ has_info)
      ∙ first f h in
    put_if-lookup (in_array (text "error") levels).0 (text "error") file _ d₂
      (λ e. second (text "error") error_ne_debug ∙ has_error)
    ∙ second file other
