-- ===== src/Engine/Data/Objects.antt =====
-- The Python objects that meet src/justflow/engine/data.py, told apart as its tests tell them.
use justflow.Common.{ℕ, zero, suc, String, Bool, true, false, Option, none, some, if◌then◌else◌}
use justflow.Common.Int.{ℤ}
use text.Mathlib.Text.{◌==◌ as str_eq}

-- A finite float is the dyadic number `numerator` / 2 ** `exponent`.
pub data Float : Type 0 where
  finite : (numerator : ℤ) (exponent : ℕ) → Float
  infinite : (negative : Bool) → Float
  nan : Float

-- A key is a `str`, or any other hashable object by its identity.
pub data Key : Type 0 where
  key : String → Key
  opaque : ℕ → Key

-- `model` is a pydantic model, by what `model_dump(mode="json")` returns; `dataclass` is a dataclass
-- instance by its fields; `failing` is one of the two whose `model_dump` or field access raises, by the
-- exception; `other` is an object of any other type.
mutual
  pub data Object : Type 0 where
    null : Object
    bool : Bool → Object
    int : ℤ → Object
    float : Float → Object
    str : String → Object
    list : Items → Object
    tuple : Items → Object
    dict : Entries → Object
    model : Object → Object
    dataclass : Entries → Object
    failing : ℕ → Object
    other : ℕ → Object

  pub data Items : Type 0 where
    nil : Items
    cons : Object → Items → Items

  pub data Entries : Type 0 where
    end : Entries
    entry : Key → Object → Entries → Entries

unfoldable pub items_length : Items → ℕ
items_length nil = 0
items_length (cons x xs) = suc (items_length xs)

unfoldable pub entries_length : Entries → ℕ
entries_length end = 0
entries_length (entry k v es) = suc (entries_length es)

-- d.get(k) of a text
unfoldable pub find_entry : String → Entries → Option Object
find_entry k end = none
find_entry k (entry (key j) v es) = if str_eq j k then some v else find_entry k es
find_entry k (entry (opaque j) v es) = find_entry k es

unfoldable pub has_entry : String → Entries → Bool
has_entry k end = false
has_entry k (entry (key j) v es) = if str_eq j k then true else has_entry k es
has_entry k (entry (opaque j) v es) = has_entry k es

unfoldable pub item_at : Items → ℕ → Option Object
item_at nil i = none
item_at (cons x xs) zero = some x
item_at (cons x xs) (suc i) = item_at xs i
