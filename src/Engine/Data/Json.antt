-- ===== src/Engine/Data/Json.antt =====
-- JSON values within bounds, and normalization (engine/data.py).
use mathlib.Core.Logic.{◌↔◌}
use justflow.Common.{ℕ, suc, leb, leb→le, Bool-cases, inl, inr, ◌+◌, ◌≤◌, ◌≡◌, refl, arith, ap}
use justflow.Engine.Exceptions.{
  collection_items, Result, ok, ◌>>=◌, ◌>>◌, Ensures, Ensures->>=, Ensures_ok,
}
use justflow.Engine.Data.Objects.{Float, Object, Items, Entries, items_length, entries_length}
use justflow.Engine.Data.Normalize.{normalize_value, normalize_items, normalize_entries}
use justflow.Engine.Limits.{enforce_limit, Ensures-enforce_limit}
use justflow.Engine.Data.Normalize.{within_depth, normalize_float}
use justflow.Engine.Data.Objects.{
  finite, infinite, nan, key, opaque, null, bool, int, float, str, list, tuple, dict, model,
  dataclass, failing, other, nil, cons, end, entry,
}

-- JSON values within the bounds: depth at most `m`, collections of at most `c` items.
unfoldable mutual
  pub IsJson : (m c d : ℕ) → Object → Type 0
  IsJson m c d null = d ≤ m
  IsJson m c d (bool b) = d ≤ m
  IsJson m c d (int n) = d ≤ m
  IsJson m c d (str s) = d ≤ m
  IsJson m c d (float (finite n e)) = d ≤ m
  IsJson m c d (float (infinite s)) = ⊥
  IsJson m c d (float nan) = ⊥
  IsJson m c d (list xs) = (d ≤ m) × (items_length xs ≤ c) × AreItems m c (d + 1) xs
  IsJson m c d (dict es) = (d ≤ m) × (entries_length es ≤ c) × AreEntries m c (d + 1) es
  IsJson m c d (tuple xs) = ⊥
  IsJson m c d (model v) = ⊥
  IsJson m c d (dataclass es) = ⊥
  IsJson m c d (failing e) = ⊥
  IsJson m c d (other t) = ⊥

  pub AreItems : (m c d : ℕ) → Items → Type 0
  AreItems m c d nil = Unit
  AreItems m c d (cons x xs) = IsJson m c d x × AreItems m c d xs

  pub AreEntries : (m c d : ℕ) → Entries → Type 0
  AreEntries m c d end = Unit
  AreEntries m c d (entry (key k) v es) = IsJson m c d v × AreEntries m c d es
  AreEntries m c d (entry (opaque k) v es) = ⊥

mutual
  unfolding normalize_value IsJson

  pub normalize_value-id :
      (m c d : ℕ) (v : Object) → IsJson m c d v → normalize_value m c d v ≡ ok v
  normalize_value-id m c d null h = ground arith
  normalize_value-id m c d (bool b) h = ground arith
  normalize_value-id m c d (int n) h = ground arith
  normalize_value-id m c d (str s) h = ground arith
  normalize_value-id m c d (float (finite n e)) h = ground arith
  normalize_value-id m c d (float (infinite s)) h = absurd h
  normalize_value-id m c d (float nan) h = absurd h
  normalize_value-id m c d (list xs) h = rw (normalize_items-id m c (d + 1) xs h.2) (ground arith)
  normalize_value-id m c d (dict es) h = rw (normalize_entries-id m c (d + 1) es h.2) (ground arith)
  normalize_value-id m c d (tuple xs) h = absurd h
  normalize_value-id m c d (model v) h = absurd h
  normalize_value-id m c d (dataclass es) h = absurd h
  normalize_value-id m c d (failing e) h = absurd h
  normalize_value-id m c d (other t) h = absurd h

  normalize_items-id :
      (m c d : ℕ) (xs : Items) → AreItems m c d xs → normalize_items m c d xs ≡ ok xs
  normalize_items-id m c d nil h = refl
  normalize_items-id m c d (cons x xs) h =
      rw (normalize_value-id m c d x h.0, normalize_items-id m c d xs h.1)

  normalize_entries-id :
      (m c d : ℕ) (es : Entries) → AreEntries m c d es → normalize_entries m c d es ≡ ok es
  normalize_entries-id m c d end h = refl
  normalize_entries-id m c d (entry (key k) v es) h =
      rw (normalize_value-id m c d v h.0, normalize_entries-id m c d es h.1)
  normalize_entries-id m c d (entry (opaque k) v es) h = absurd h

abbrev SameLength : (m c d : ℕ) → Items → Items → Type 0
SameLength m c d xs ys = AreItems m c d ys × (items_length ys ≡ items_length xs)

abbrev SameSize : (m c d : ℕ) → Entries → Entries → Type 0
SameSize m c d es fs = AreEntries m c d fs × (entries_length fs ≡ entries_length es)

Ensures-within_depth :
    (P : Object → Type 0) (m d : ℕ) (r : Result Object)
    → (d ≤ m → Ensures P r)
    → Ensures P (within_depth m d r)
Ensures-within_depth P m d r h = elim (Bool-cases (leb d m)) [
  | inl fits ↦ rw fits (h (leb→le d m fits))
  | inr over ↦ rw over tt
]

-- A list or a tuple becomes a list, and a mapping or a dataclass a dict, of normalized parts.
module _ (m c d : ℕ) where
  listed :
      (xs : Items) (r : Result Items)
      → Ensures (SameLength m c (d + 1) xs) r
      → Ensures (IsJson m c d) (
          within_depth m d
            (enforce_limit (items_length xs) c collection_items >> (r >>= λ ys. ok (list ys))))
  unfolding IsJson
  listed xs r h = Ensures-within_depth (IsJson m c d) m d _ λ shallow.
      Ensures-enforce_limit (IsJson m c d) (items_length xs) c collection_items _ λ small.
        Ensures->>= (SameLength m c (d + 1) xs) (IsJson m c d) r _ h
          λ ys parts. (shallow, omega (arith, small, parts.1), parts.0)

  mapped :
      (es : Entries) (r : Result Entries)
      → Ensures (SameSize m c (d + 1) es) r
      → Ensures (IsJson m c d) (
          within_depth m d
            (enforce_limit (entries_length es) c collection_items >> (r >>= λ fs. ok (dict fs))))
  unfolding IsJson
  mapped es r h = Ensures-within_depth (IsJson m c d) m d _ λ shallow.
      Ensures-enforce_limit (IsJson m c d) (entries_length es) c collection_items _ λ small.
        Ensures->>= (SameSize m c (d + 1) es) (IsJson m c d) r _ h
          λ fs parts. (shallow, omega (arith, small, parts.1), parts.0)

  floated : (x : Float) → Ensures (IsJson m c d) (within_depth m d (normalize_float x))
  unfolding IsJson
  floated (finite n e) = Ensures-within_depth (IsJson m c d) m d _ (λ shallow. shallow)
  floated (infinite s) = Ensures-within_depth (IsJson m c d) m d _ (λ shallow. tt)
  floated nan = Ensures-within_depth (IsJson m c d) m d _ (λ shallow. tt)

mutual
  unfolding normalize_value IsJson items_length

  pub normalize_value-Ensures :
      (m c d : ℕ) (v : Object) → Ensures (IsJson m c d) (normalize_value m c d v)
  normalize_value-Ensures m c d null = Ensures-within_depth (IsJson m c d) m d _ (λ h. h)
  normalize_value-Ensures m c d (bool b) = Ensures-within_depth (IsJson m c d) m d _ (λ h. h)
  normalize_value-Ensures m c d (int n) = Ensures-within_depth (IsJson m c d) m d _ (λ h. h)
  normalize_value-Ensures m c d (str s) = Ensures-within_depth (IsJson m c d) m d _ (λ h. h)
  normalize_value-Ensures m c d (float x) = floated m c d x
  normalize_value-Ensures m c d (list xs) =
      listed m c d xs _ (normalize_items-Ensures m c (d + 1) xs)
  normalize_value-Ensures m c d (tuple xs) =
      listed m c d xs _ (normalize_items-Ensures m c (d + 1) xs)
  normalize_value-Ensures m c d (dict es) =
      mapped m c d es _ (normalize_entries-Ensures m c (d + 1) es)
  normalize_value-Ensures m c d (dataclass es) =
      mapped m c d es _ (normalize_entries-Ensures m c (d + 1) es)
  normalize_value-Ensures m c d (model v) =
      let inner = normalize_value-Ensures m c d v in
      Ensures-within_depth (IsJson m c d) m d _ (λ _. inner)
  normalize_value-Ensures m c d (failing e) = Ensures-within_depth (IsJson m c d) m d _ (λ h. tt)
  normalize_value-Ensures m c d (other t) = Ensures-within_depth (IsJson m c d) m d _ (λ h. tt)

  normalize_items-Ensures :
      (m c d : ℕ) (xs : Items) → Ensures (SameLength m c d xs) (normalize_items m c d xs)
  normalize_items-Ensures m c d nil = (tt, refl)
  normalize_items-Ensures m c d (cons x xs) =
      let tail = normalize_items-Ensures m c d xs in
      Ensures->>= (IsJson m c d) (SameLength m c d (cons x xs)) _ _
        (normalize_value-Ensures m c d x)
        λ y head.
          Ensures->>= (SameLength m c d xs) (SameLength m c d (cons x xs)) _ _ tail
            λ ys rest. ((head, rest.0), ap suc rest.1)

  normalize_entries-Ensures :
      (m c d : ℕ) (es : Entries) → Ensures (SameSize m c d es) (normalize_entries m c d es)
  normalize_entries-Ensures m c d end = (tt, refl)
  normalize_entries-Ensures m c d (entry (key k) v es) =
      let tail = normalize_entries-Ensures m c d es in
      let target = SameSize m c d (entry (key k) v es) in
      Ensures->>= (IsJson m c d) target _ _ (normalize_value-Ensures m c d v) λ w head.
        Ensures->>= (SameSize m c d es) target _ _ tail λ fs rest. ((head, rest.0), ap suc rest.1)
  normalize_entries-Ensures m c d (entry (opaque k) v es) = tt

-- What normalization returns is JSON within the bounds.
pub normalize_value-IsJson :
    (m c d : ℕ) (v : Object) {w : Object} → normalize_value m c d v ≡ ok w → IsJson m c d w
normalize_value-IsJson m c d v e = Ensures_ok (IsJson m c d) _ (normalize_value-Ensures m c d v) e

-- Normalizing what normalization returned returns it again.
pub normalize_value-normalize_value :
    (m c d : ℕ) (v : Object) {w : Object}
    → normalize_value m c d v ≡ ok w
    → normalize_value m c d w ≡ ok w
normalize_value-normalize_value m c d v {w} e =
    normalize_value-id m c d w (normalize_value-IsJson m c d v e)

-- The values that normalization returns as they are, are exactly the JSON values within the bounds on
-- depth and on the number of items.
pub normalize_value-IsJson_iff :
    (m c d : ℕ) (v : Object) → (normalize_value m c d v ≡ ok v) ↔ IsJson m c d v
normalize_value-IsJson_iff m c d v = (normalize_value-IsJson m c d v, normalize_value-id m c d v)
