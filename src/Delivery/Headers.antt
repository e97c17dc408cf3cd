-- ===== src/Delivery/Headers.antt =====
-- Which headers of a published message the loop of `apiPublish` (api.go) keeps.
use wmq.Common.{
  ◌≡◌, refl, sym, ◌∙◌, true, Option, some, List, [], ◌∷◌, ◌++◌, Text, ◌==◌, ==_iff, if◌then◌else◌,
  arith, Bool-cases, inl, inr,
}
use wmq.Common.Dict.{Dict, lookup, insert, lookup-insert}
use wmq.Delivery.Publishing.{trim_space, is_ignored, visit_headers}

-- The value of the last header of the name, spaces around it left aside, or the one before.
abbrev pub last_value : Text → List (Text × Text) → Option Text → Option Text
last_value k [] old = old
last_value k ((j, v) ∷ hs) old = last_value k hs (if trim_space j == k then some v else old)

is_ignored-trim :
    (j k : Text) (ignores : List Text)
    → trim_space j ≡ trim_space k
    → is_ignored j ignores ≡ is_ignored k ignores
is_ignored-trim j k [] h = refl
is_ignored-trim j k (i ∷ ignores) h = rw (h, is_ignored-trim j k ignores h)

-- A header that is ignored is not passed on, and of any other name the last header is, whatever the other
-- headers are. The name has no spaces around it, as the names that are passed on have not.
pub visit_headers-lookup :
    (ignores : List Text) (hs : List (Text × Text)) (d : Dict Text) (k : Text)
    → trim_space k ≡ k
    → lookup k (visit_headers ignores hs d)
      ≡ (if is_ignored k ignores then lookup k d else last_value k hs (lookup k d))
unfolding visit_headers
visit_headers-lookup ignores [] d k h = ground arith
visit_headers-lookup ignores ((j, v) ∷ hs) d k h =
    let rest =
      visit_headers-lookup ignores hs
        (if is_ignored j ignores then d else insert (trim_space j) v d) k h in
    let put = lookup-insert (trim_space j) k v d in
    elim (Bool-cases (trim_space j == k)) [
      | inl same ↦
          let alike = is_ignored-trim j k ignores ((==_iff (trim_space j) k).0 same ∙ sym h) in
          elim (Bool-cases (is_ignored k ignores)) [
            | inl ignored ↦ rw (rest, alike, ignored)
            | inr kept ↦ rw (rest, alike, kept, put, same)
          ]
      | inr other ↦ elim (Bool-cases (is_ignored j ignores)) [
        | inl ignored ↦ rw (rest, ignored, other)
        | inr kept ↦ rw (rest, kept, put, other)
      ]
    ]

pub is_ignored-append :
    (k : Text) (xs ys : List Text) → is_ignored k xs ≡ true → is_ignored k (xs ++ ys) ≡ true
is_ignored-append k [] ys h = cc
is_ignored-append k (x ∷ xs) ys h = ground (arith, is_ignored-append k xs ys)
