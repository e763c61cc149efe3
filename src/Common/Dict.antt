-- ===== src/Common/Dict.antt =====
-- Python's `dict` with text keys, in insertion order: an assignment to a present key keeps its place.
use Prim.Native.Nat.{◌+◌, ◌≤◌}
use Prim.Native.String.{String}
use mathlib.Core.Path.{◌≡◌, refl}
use mathlib.Core.Bool.{Bool, true, false}
use mathlib.Core.Option.{Option, none, some}
use mathlib.Core.List.{List, [], ◌∷◌}
use native.Mathlib.Omega.{arith}
use text.Mathlib.Text.{◌==◌}
use text.Mathlib.TextEquality.{eq_iff}
use justflow.Common.Tests.{if◌then◌else◌}
use justflow.Common.Lists.{length}

abbrev pub Dict {ℓ} : Type ℓ → Type ℓ
Dict V = List (String × V)

module _ {ℓ} {V : Type ℓ} where
  -- d.get(k)
  unfoldable pub lookup : String → Dict V → Option V
  lookup k [] = none
  lookup k ((j, v) ∷ d) = if j == k then some v else lookup k d

  -- k in d
  unfoldable pub contains : String → Dict V → Bool
  contains k [] = false
  contains k ((j, v) ∷ d) = if j == k then true else contains k d

  -- d[k] = v
  unfoldable pub insert : String → V → Dict V → Dict V
  insert k v [] = (k, v) ∷ []
  insert k v ((j, w) ∷ d) = if j == k then (k, v) ∷ d else (j, w) ∷ insert k v d

  -- del d[k] of a present key, and d.pop(k, None)
  unfoldable pub delete : String → Dict V → Dict V
  delete k [] = []
  delete k ((j, v) ∷ d) = let rest = delete k d in if j == k then rest else (j, v) ∷ rest

  -- No key stands twice.
  abbrev pub IsDistinct : Dict V → Type 0
  IsDistinct [] = Unit
  IsDistinct ((k, v) ∷ d) = (contains k d ≡ false) × IsDistinct d

  pub lookup-insert :
      (k j : String) (v : V) (d : Dict V)
      → lookup j (insert k v d) ≡ (if k == j then some v else lookup j d)
  unfolding lookup insert
  lookup-insert k j v [] = refl
  lookup-insert k j v ((i, w) ∷ d) =
      ground (arith, eq_iff k j, eq_iff i k, eq_iff i j, lookup-insert k j v d)

  pub lookup-delete :
      (k j : String) (d : Dict V) → lookup j (delete k d) ≡ (if k == j then none else lookup j d)
  unfolding lookup delete
  lookup-delete k j [] = ground arith
  lookup-delete k j ((i, w) ∷ d) =
      ground (arith, eq_iff k j, eq_iff i k, eq_iff i j, lookup-delete k j d)

  pub contains-insert :
      (k j : String) (v : V) (d : Dict V)
      → contains j (insert k v d) ≡ (if k == j then true else contains j d)
  unfolding contains insert
  contains-insert k j v [] = refl
  contains-insert k j v ((i, w) ∷ d) =
      ground (arith, eq_iff k j, eq_iff i k, eq_iff i j, contains-insert k j v d)

  pub contains-delete :
      (k j : String) (d : Dict V)
      → contains j (delete k d) ≡ (if k == j then false else contains j d)
  unfolding contains delete
  contains-delete k j [] = ground arith
  contains-delete k j ((i, w) ∷ d) =
      ground (arith, eq_iff k j, eq_iff i k, eq_iff i j, contains-delete k j d)

  pub contains-lookup : (k : String) (d : Dict V) → lookup k d ≡ none → contains k d ≡ false
  unfolding contains lookup
  contains-lookup k [] h = refl
  contains-lookup k ((j, v) ∷ d) h = ground (arith, contains-lookup k d)

  pub lookup-contains : (k : String) (d : Dict V) → contains k d ≡ false → lookup k d ≡ none
  unfolding contains lookup
  lookup-contains k [] h = refl
  lookup-contains k ((j, v) ∷ d) h = ground (arith, lookup-contains k d)

  pub length-insert_new :
      (k : String) (v : V) (d : Dict V)
      → contains k d ≡ false
      → length (insert k v d) ≡ length d + 1
  unfolding contains insert
  length-insert_new k v [] h = omega arith
  length-insert_new k v ((j, w) ∷ d) h = ground (arith, length-insert_new k v d)

  pub length-delete-le : (k : String) (d : Dict V) → length (delete k d) ≤ length d
  unfolding delete
  length-delete-le k [] = omega arith
  length-delete-le k ((j, v) ∷ d) = ground (arith, length-delete-le k d)

  pub length-delete-lt :
      (k : String) (d : Dict V) {v : V} → lookup k d ≡ some v → length (delete k d) + 1 ≤ length d
  unfolding delete lookup
  length-delete-lt k [] h = ground arith
  length-delete-lt k ((j, w) ∷ d) {v} h =
      ground (arith, length-delete-le k d, length-delete-lt k d {v = v})

  pub insert-IsDistinct :
      (k : String) (v : V) (d : Dict V) → IsDistinct d → IsDistinct (insert k v d)
  unfolding insert contains
  insert-IsDistinct k v [] h = (refl, tt)
  insert-IsDistinct k v ((j, w) ∷ d) h =
      ground (arith, eq_iff j k, eq_iff k j, contains-insert k j v d, insert-IsDistinct k v d h.1)

  pub delete-IsDistinct : (k : String) (d : Dict V) → IsDistinct d → IsDistinct (delete k d)
  unfolding delete contains
  delete-IsDistinct k [] h = tt
  delete-IsDistinct k ((j, w) ∷ d) h =
      ground (arith, contains-delete k j d, delete-IsDistinct k d h.1)

pub ruleset dict_laws = (lookup-insert, lookup-delete, contains-insert, contains-delete)
