-- ===== src/Engine/Data/Errors.antt =====
-- The errors of normalization (engine/data.py).
use justflow.Common.{ℕ, ◌+◌, leb, Bool-cases, inl, inr}
use justflow.Engine.Exceptions.{
  collection_items, limit_exceeded, data_normalization, external, Result, ok, err, ◌>>=◌, ◌>>◌,
}
use justflow.Engine.Limits.{enforce_limit}
use justflow.Engine.Data.Objects.{
  Float, finite, infinite, nan, key, opaque, Object, null, bool, int, float, str, list, tuple, dict,
  model, dataclass, failing, other, Items, nil, cons, Entries, end, entry, items_length,
  entries_length,
}
use justflow.Engine.Data.Normalize.{
  within_depth, normalize_float, normalize_value, normalize_items, normalize_entries,
}

abbrev pub Normalizes {ℓ} : {A : Type ℓ} → Result A → Type 0
Normalizes (ok a) = Unit
Normalizes (err data_normalization) = Unit
Normalizes (err (limit_exceeded kind actual limit)) = Unit
Normalizes (err (external e)) = Unit
Normalizes (err _) = ⊥

pub Normalizes->>= {ℓ κ} :
    {A : Type ℓ} {B : Type κ} (r : Result A) (f : A → Result B)
    → Normalizes r
    → ((a : A) → Normalizes (f a))
    → Normalizes (r >>= f)
Normalizes->>= (ok a) f h k = k a
Normalizes->>= (err data_normalization) f h k = tt
Normalizes->>= (err (limit_exceeded kind actual limit)) f h k = tt
Normalizes->>= (err (external e)) f h k = tt
Normalizes->>= (err _) f h k = absurd h

within : (m d : ℕ) (r : Result Object) → Normalizes r → Normalizes (within_depth m d r)
within m d r h = elim (Bool-cases (leb d m)) [ inl fits ↦ rw fits h | inr over ↦ rw over tt ]

limited {ℓ} :
    {A : Type ℓ} (n limit : ℕ) (r : Result A)
    → Normalizes r
    → Normalizes (enforce_limit n limit collection_items >> r)
unfolding enforce_limit
limited n limit r h = elim (Bool-cases (leb n limit)) [
  | inl fits ↦ rw fits h
  | inr over ↦ rw over tt
]

normalize_float-Normalizes : (x : Float) → Normalizes (normalize_float x)
normalize_float-Normalizes (finite n e) = tt
normalize_float-Normalizes (infinite s) = tt
normalize_float-Normalizes nan = tt

mutual
  unfolding normalize_value

  value-Normalizes : (m c d : ℕ) (v : Object) → Normalizes (normalize_value m c d v)
  value-Normalizes m c d null = within m d _ tt
  value-Normalizes m c d (bool b) = within m d _ tt
  value-Normalizes m c d (int n) = within m d _ tt
  value-Normalizes m c d (str s) = within m d _ tt
  value-Normalizes m c d (float x) = within m d _ (normalize_float-Normalizes x)
  value-Normalizes m c d (list xs) = within m d _ (
      limited (items_length xs) c _ (Normalizes->>= _ _ (items_normalize m c (d + 1) xs) (λ _. tt)))
  value-Normalizes m c d (tuple xs) = within m d _ (
      limited (items_length xs) c _ (Normalizes->>= _ _ (items_normalize m c (d + 1) xs) (λ _. tt)))
  value-Normalizes m c d (dict es) = within m d _ (
      limited (entries_length es) c _
        (Normalizes->>= _ _ (entries_normalize m c (d + 1) es) (λ _. tt)))
  value-Normalizes m c d (dataclass es) = within m d _ (
      limited (entries_length es) c _
        (Normalizes->>= _ _ (entries_normalize m c (d + 1) es) (λ _. tt)))
  value-Normalizes m c d (model v) = within m d _ (value-Normalizes m c d v)
  value-Normalizes m c d (failing e) = within m d _ tt
  value-Normalizes m c d (other t) = within m d _ tt

  items_normalize : (m c d : ℕ) (xs : Items) → Normalizes (normalize_items m c d xs)
  items_normalize m c d nil = tt
  items_normalize m c d (cons x xs) =
      let tail = items_normalize m c d xs in
      Normalizes->>= _ _ (value-Normalizes m c d x) λ y. Normalizes->>= _ _ tail (λ _. tt)

  entries_normalize : (m c d : ℕ) (es : Entries) → Normalizes (normalize_entries m c d es)
  entries_normalize m c d end = tt
  entries_normalize m c d (entry (key k) v es) =
      let tail = entries_normalize m c d es in
      Normalizes->>= _ _ (value-Normalizes m c d v) λ w. Normalizes->>= _ _ tail (λ _. tt)
  entries_normalize m c d (entry (opaque k) v es) = tt

-- For any bounds, depth and value, normalization returns, raises DataNormalizationError or
-- LimitExceededError, or lets the exception of a model's dump or of a dataclass's field through.
pub normalize_value-Normalizes : (m c d : ℕ) (v : Object) → Normalizes (normalize_value m c d v)
normalize_value-Normalizes m c d v = value-Normalizes m c d v
