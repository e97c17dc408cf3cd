-- ===== src/Common/Dict.antt =====
-- Go's map[string]V, as an association list. Its order stands for the order of a `range` loop.
use mathlib.Core.Path.{◌≡◌, refl, ap}
use Prim.Native.Nat.{suc, ◌+◌}
use mathlib.Core.List.{List, [], ◌∷◌}
use mathlib.Core.Option.{Option, none, some}
use native.Mathlib.Omega.{arith}
use wmq.Common.Tests.{if◌then◌else◌, is_some}
use wmq.Common.Lists.{length}
use wmq.Common.Texts.{Text, ◌==◌, ==_iff}

abbrev pub Dict {ℓ} : Type ℓ → Type ℓ
Dict V = List (Text × V)

module _ {ℓ} {V : Type ℓ} where
  -- `v, ok := d[k]`
  unfoldable pub lookup : Text → Dict V → Option V
  lookup k [] = none
  lookup k ((j, v) ∷ d) = if j == k then some v else lookup k d

  -- `d[k] = v`
  unfoldable pub insert : Text → V → Dict V → Dict V
  insert k v [] = (k, v) ∷ []
  insert k v ((j, w) ∷ d) = if j == k then (k, v) ∷ d else (j, w) ∷ insert k v d

  -- `delete(d, k)`
  unfoldable pub delete : Text → Dict V → Dict V
  delete k [] = []
  delete k ((j, w) ∷ d) = if j == k then delete k d else (j, w) ∷ delete k d

  abbrev pub Distinct : Dict V → Type ℓ
  Distinct [] = Unit
  Distinct ((k, v) ∷ d) = (lookup k d ≡ none) × Distinct d

  pub lookup-insert :
      (k j : Text) (v : V) (d : Dict V)
      → lookup j (insert k v d) ≡ (if k == j then some v else lookup j d)
  unfolding lookup insert
  lookup-insert k j v [] = refl
  lookup-insert k j v ((i, w) ∷ d) =
      ground (arith, ==_iff k j, ==_iff i k, ==_iff i j, lookup-insert k j v d)

  pub lookup-delete :
      (k j : Text) (d : Dict V) → lookup j (delete k d) ≡ (if k == j then none else lookup j d)
  unfolding lookup delete
  lookup-delete k j [] = ground arith
  lookup-delete k j ((i, w) ∷ d) =
      ground (arith, ==_iff k j, ==_iff i k, ==_iff i j, lookup-delete k j d)

  pub length-insert :
      (k : Text) (v : V) (d : Dict V)
      → length (insert k v d) ≡ (if is_some (lookup k d) then length d else suc (length d))
  unfolding lookup insert
  length-insert k v [] = refl
  length-insert k v ((i, w) ∷ d) = ground (arith, length-insert k v d)

  pub delete_missing : (k : Text) (d : Dict V) → lookup k d ≡ none → delete k d ≡ d
  unfolding lookup delete
  delete_missing k [] h = refl
  delete_missing k ((i, w) ∷ d) h = ground (arith, delete_missing k d)

  pub length-delete :
      (k : Text) (d : Dict V)
      → Distinct d
      → length (delete k d) + (if is_some (lookup k d) then 1 else 0) ≡ length d
  unfolding lookup delete
  length-delete k [] h = omega arith
  length-delete k ((i, w) ∷ d) h = ground (
    arith,
    ==_iff i k,
    delete_missing k d,
    ap length (delete_missing k d _),
    length-delete k d h.1,
  )

  pub insert-Distinct : (k : Text) (v : V) (d : Dict V) → Distinct d → Distinct (insert k v d)
  unfolding insert
  insert-Distinct k v [] h = (unfold lookup in refl, tt)
  insert-Distinct k v ((i, w) ∷ d) h =
      ground (arith, ==_iff i k, ==_iff k i, insert-Distinct k v d h.1, lookup-insert k i v d)

  pub delete-Distinct : (k : Text) (d : Dict V) → Distinct d → Distinct (delete k d)
  unfolding delete
  delete-Distinct k [] h = tt
  delete-Distinct k ((i, w) ∷ d) h = ground (arith, delete-Distinct k d h.1, lookup-delete k i d)
