-- ===== src/Start/Logs/Levels.antt =====
-- Which messages the console level of logger.go lets through.
use wmq.Common.{
  ◌≡◌, refl, sym, ap, ◌∙◌, ◌≢◌, ◌⊎◌, inl, inr, Bool, true, false, Text, ◌==◌, ==_iff, ==_refl, leb,
  Bool-cases,
}
use wmq.Start.Logs.{Level, debug, info, warn, error, fatal, severity, level_name, console_levels}

pub true-false : true ≡ false → ⊥
true-false e = cc

each : (P : Level → Type 0) → P debug → P info → P warn → P error → P fatal → (l : Level) → P l
each P a b c d e debug = a
each P a b c d e info = b
each P a b c d e warn = c
each P a b c d e error = d
each P a b c d e fatal = e

-- A test of the levels holds for one or fails for all.
Level-cases : (P : Level → Bool) → ((m : Level) × (P m ≡ true)) ⊎ ((m : Level) → P m ≡ false)
Level-cases P = elim (Bool-cases (P debug)) [
  | inl h ↦ inl (debug, h)
  | inr a ↦ elim (Bool-cases (P info)) [
    | inl h ↦ inl (info, h)
    | inr b ↦ elim (Bool-cases (P warn)) [
      | inl h ↦ inl (warn, h)
      | inr c ↦ elim (Bool-cases (P error)) [
        | inl h ↦ inl (error, h)
        | inr d ↦ elim (Bool-cases (P fatal)) [
          | inl h ↦ inl (fatal, h)
          | inr e ↦ inr (each (λ m. P m ≡ false) a b c d e)
        ]
      ]
    ]
  ]
]

console_levels-named :
    (m l : Level) → console_levels (level_name m) l ≡ leb (severity m) (severity l)
unfolding console_levels ◌==◌
console_levels-named =
    each (λ m. (l : Level) → console_levels (level_name m) l ≡ leb (severity m) (severity l))
      (each _ refl refl refl refl refl) (each _ refl refl refl refl refl)
      (each _ refl refl refl refl refl) (each _ refl refl refl refl refl)
      (each _ refl refl refl refl refl)

console_levels-other :
    (name : Text) (l : Level)
    → ((m : Level) → (name == level_name m) ≡ false)
    → console_levels name l ≡ false
unfolding console_levels
console_levels-other name l h = rw (h debug, h info, h warn, h error, h fatal)

-- A console level prints the messages of this level and of the higher ones; any other name of a level
-- prints nothing.
pub console_levels-severity :
    (name : Text) (l : Level)
    → ((m : Level) × (name ≡ level_name m)
        × (console_levels name l ≡ leb (severity m) (severity l)))
      ⊎ (((m : Level) → name ≢ level_name m) × (console_levels name l ≡ false))
console_levels-severity name l = elim (Level-cases (λ m. name == level_name m)) [
  | inl (m, same) ↦
      let e = (==_iff name (level_name m)).0 same in
      inl (m, e, ap (λ x. console_levels x l) e ∙ console_levels-named m l)
  | inr others ↦ inr (
    λ m e. true-false (sym (ap (λ x. name == x) (sym e) ∙ ==_refl name) ∙ others m),
    console_levels-other name l others,
  )
]
