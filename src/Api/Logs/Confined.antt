-- ===== src/Api/Logs/Confined.antt =====
-- Which files the route `/log/file` of api.go sends.
use wmq.Common.{
  ◌≡◌, refl, sym, ap, ◌∙◌, ◌⊎◌, inl, inr, Bool, true, false, ◌||◌, [], ◌∷◌, ◌++◌, Text, text, ◌==◌,
  ==_iff, nat_eq, arith, subst, Bool-cases,
}
use wmq.Api.{Request, Response, peek, check_request}
use wmq.Api.Logs.{
  FilePath, split, parent, walk, join, has_slash, LogFiles, answers, sends_file, log_directory,
  api_log_file,
}

neither : (a b c : Bool) → ((a || b) || c) ≡ false → (a ≡ false) × (c ≡ false)
neither a b c h = ground arith

split-has_slash : (s : Text) → has_slash s ≡ false → split b'/' s ≡ s ∷ []
unfolding has_slash
split-has_slash [] h = refl
split-has_slash (c ∷ s) h =
    let (other, rest) = neither (nat_eq c b'/') (nat_eq c 92) (has_slash s) h in
    rw (other, split-has_slash s rest)

-- The file of a directory that a name stands for; `.` is the directory itself, and `..` its parent.
abbrev pub StandsFor : FilePath → Text → FilePath → Type 0
StandsFor dir name file =
    ((name ≡ text ".") × (file ≡ dir))
    ⊎ (((name ≡ text "..") × (file ≡ record dir { names = parent dir.is_abs dir.names }))
        ⊎ (((name == text ".") ≡ false)
            × ((name == text "..") ≡ false)
            × (file ≡ record dir { names = dir.names ++ name ∷ [] })))

join-StandsFor :
    (dir : FilePath) (name : Text)
    → (name == []) ≡ false
    → has_slash name ≡ false
    → StandsFor dir name (join dir name)
unfolding join walk
join-StandsFor dir name some_name h = elim (Bool-cases (name == text ".")) [
  | inl dot ↦
      rw (split-has_slash name h, some_name, dot) (inl ((==_iff name (text ".")).0 dot, refl))
  | inr other ↦ elim (Bool-cases (name == text "..")) [
    | inl up ↦
        rw (split-has_slash name h, some_name, other, up)
          (inr (inl ((==_iff name (text "..")).0 up, refl)))
    | inr plain ↦
        rw (split-has_slash name h, some_name, other, plain) (inr (inr (refl, refl, refl)))
  ]
]

sends-answers : {r : Response} {name : Text} {p : FilePath} → answers r ≡ sends_file name p → ⊥
sends-answers e = cc

sends-injective : {n m : Text} {p q : FilePath} → sends_file n p ≡ sends_file m q → p ≡ q
sends-injective e = cc

-- A file is sent only to a request with the token, and only one that exists. Unless the name asked for is `.` or
-- `..` it stands in the log directory itself under that name; for `.` it is the log directory, and for `..`
-- the directory above it.
pub api_log_file-StandsFor :
    {W : Type 0} (logs : LogFiles W) (r : Request) (w : W) (name : Text) (file : FilePath)
    → api_log_file logs r w ≡ sends_file name file
    → (check_request logs.api_token r ≡ true)
      × (logs.is_not_exist file w ≡ false)
      × StandsFor (log_directory logs) (peek r "file") file
unfolding api_log_file
api_log_file-StandsFor logs r w name file sent =
    let asked = peek r "file" in
    let found = join (log_directory logs) asked in
    elim (Bool-cases (check_request logs.api_token r)) [
      | inr refused ↦ absurd (sends-answers (rw refused at sent))
      | inl allowed ↦ elim (Bool-cases (asked == [])) [
        | inl empty ↦ absurd (sends-answers (rw (allowed, empty) at sent))
        | inr named ↦ elim (Bool-cases (has_slash asked)) [
          | inl slash ↦ absurd (sends-answers (rw (allowed, named, slash) at sent))
          | inr plain ↦ elim (Bool-cases (logs.is_not_exist found w)) [
            | inl missing ↦ absurd (sends-answers (rw (allowed, named, plain, missing) at sent))
            | inr there ↦
                let same : found ≡ file =
                  sends-injective (rw (allowed, named, plain, there) at sent) in
                (
                  allowed,
                  ap (λ p. logs.is_not_exist p w) (sym same) ∙ there,
                  subst (StandsFor (log_directory logs) asked) same
                      (join-StandsFor (log_directory logs) asked named plain),
                )
          ]
        ]
      ]
    ]
