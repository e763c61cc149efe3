-- ===== src/Engine/Evaluator/Operators.antt =====
-- Python's operators on the values of a condition: `==`, `<`, `<=`, `in`, `len` and `bool`.
-- The values are normalized JSON values, constants, and lists and tuples of constants; the clauses
-- for other objects are never met.
use Prim.Native.Char.{code}
use text.Mathlib.Text.{◌==◌ as str_eq}
use justflow.Common.{
  ℕ, String, Bool, true, false, not, ◌&&◌, ◌||◌, Option, none, some, List, [], ◌∷◌, ltb, ◌==◌,
  if◌then◌else◌, length,
}
use justflow.Common.Int.{ℤ, pos, negsuc, eqb, ltz, scale}
use justflow.Engine.Exceptions.{type_error, key_error, Result, ok, err, ◌>>=◌}
use justflow.Engine.Data.Objects.{
  Float, Object, Items, Entries, items_length, entries_length, find_entry, has_entry,
}
use justflow.Engine.Data.Objects.{
  finite, infinite, key, opaque, null, bool, int, float, str, list, tuple, dict, other, nil, cons,
  end, entry,
}
use justflow.Engine.Evaluator.Syntax.{
  Comparison, equal, not_equal, less, less_equal, greater, greater_equal, inside, not_inside,
  identical, not_identical,
}

-- The code points of a text.
abbrev pub codes : String → List ℕ
codes String.[] = []
codes (String.◌∷◌ c s) = code c ∷ codes s

-- The number that a `bool`, an `int` or a `float` stands for.
unfoldable pub number_of : Object → Option Float
number_of (bool false) = some (finite (pos 0) 0)
number_of (bool true) = some (finite (pos 1) 0)
number_of (int n) = some (finite n 0)
number_of (float x) = some x
number_of _ = none

unfoldable pub eq_float : Float → Float → Bool
unfolding eqb scale
eq_float (finite a e) (finite b f) = eqb (scale a f) (scale b e)
eq_float (infinite true) (infinite true) = true
eq_float (infinite false) (infinite false) = true
eq_float _ _ = false

unfoldable pub less_float : Float → Float → Bool
unfolding ltz scale
less_float (finite a e) (finite b f) = ltz (scale a f) (scale b e)
less_float (finite a e) (infinite negative) = not negative
less_float (infinite negative) (finite b f) = negative
less_float (infinite true) (infinite false) = true
less_float _ _ = false

abbrev pub eq_numbers : Option Float → Option Float → Bool
eq_numbers (some x) (some y) = eq_float x y
eq_numbers _ _ = false

-- `<`, or `<=` where `strict` is false
abbrev pub less_numbers : (strict : Bool) → Option Float → Option Float → Result Bool
less_numbers true (some x) (some y) = ok (less_float x y)
less_numbers false (some x) (some y) = ok (less_float x y || eq_float x y)
less_numbers _ _ _ = err type_error

unfoldable mutual
  unfolding number_of eq_float find_entry entries_length

  pub eq_value : Object → Object → Bool
  eq_value null null = true
  eq_value (str s) (str t) = str_eq s t
  eq_value (list xs) (list ys) = eq_items xs ys
  eq_value (tuple xs) (tuple ys) = eq_items xs ys
  eq_value (dict es) (dict fs) = entries_length es == entries_length fs && eq_entries es fs
  eq_value (other s) (other t) = s == t
  eq_value a b = eq_numbers (number_of a) (number_of b)

  pub eq_items : Items → Items → Bool
  eq_items nil nil = true
  eq_items (cons x xs) (cons y ys) = eq_value x y && eq_items xs ys
  eq_items _ _ = false

  -- every entry of the first stands in the second
  pub eq_entries : Entries → Entries → Bool
  eq_entries end fs = true
  eq_entries (entry (key k) v es) fs =
      elim (find_entry k fs) [ none ↦ false | some w ↦ eq_value v w ] && eq_entries es fs
  eq_entries (entry (opaque k) v es) fs = false

unfoldable pub less_codes : (strict : Bool) → List ℕ → List ℕ → Bool
less_codes strict [] [] = not strict
less_codes strict [] (b ∷ bs) = true
less_codes strict (a ∷ as') [] = false
less_codes strict (a ∷ as') (b ∷ bs) = if a == b then less_codes strict as' bs else ltb a b

unfoldable mutual
  unfolding number_of less_float eq_float eq_value less_codes

  pub less_value : (strict : Bool) → Object → Object → Result Bool
  less_value strict (str s) (str t) = ok (less_codes strict (codes s) (codes t))
  less_value strict (list xs) (list ys) = less_items strict xs ys
  less_value strict (tuple xs) (tuple ys) = less_items strict xs ys
  less_value strict a b = less_numbers strict (number_of a) (number_of b)

  -- the first items that differ decide
  pub less_items : (strict : Bool) → Items → Items → Result Bool
  less_items strict nil nil = ok (not strict)
  less_items strict nil (cons y ys) = ok true
  less_items strict (cons x xs) nil = ok false
  less_items strict (cons x xs) (cons y ys) =
      let tail = less_items strict xs ys in if eq_value x y then tail else less_value strict x y

unfoldable pub any_equal : Object → Items → Bool
unfolding eq_value
any_equal v nil = false
any_equal v (cons x xs) = eq_value v x || any_equal v xs

abbrev pub is_prefix : List ℕ → List ℕ → Bool
is_prefix [] bs = true
is_prefix (a ∷ as') [] = false
is_prefix (a ∷ as') (b ∷ bs) = a == b && is_prefix as' bs

unfoldable pub is_infix : List ℕ → List ℕ → Bool
is_infix as' [] = is_prefix as' []
is_infix as' (b ∷ bs) = is_prefix as' (b ∷ bs) || is_infix as' bs

-- `left in right`; a list or a dict cannot be hashed
unfoldable pub member_of : Object → Object → Result Bool
unfolding is_infix any_equal has_entry
member_of (str s) (str t) = ok (is_infix (codes s) (codes t))
member_of v (list xs) = ok (any_equal v xs)
member_of v (tuple xs) = ok (any_equal v xs)
member_of (str s) (dict es) = ok (has_entry s es)
member_of (list xs) (dict es) = err type_error
member_of (dict fs) (dict es) = err type_error
member_of v (dict es) = ok false
member_of _ _ = err type_error

-- `COMPARE_OPS` has no entry for `is` and `is not`
unfoldable pub compare_values : Comparison → Object → Object → Result Bool
unfolding eq_value less_value member_of
compare_values equal a b = ok (eq_value a b)
compare_values not_equal a b = ok (not (eq_value a b))
compare_values less a b = less_value true a b
compare_values less_equal a b = less_value false a b
compare_values greater a b = less_value true b a
compare_values greater_equal a b = less_value false b a
compare_values inside a b = member_of a b
compare_values not_inside a b = member_of a b >>= λ found. ok (not found)
compare_values identical a b = err key_error
compare_values not_identical a b = err key_error

unfoldable pub len_value : Object → Result ℕ
unfolding items_length entries_length
len_value (str s) = ok (length (codes s))
len_value (list xs) = ok (items_length xs)
len_value (tuple xs) = ok (items_length xs)
len_value (dict es) = ok (entries_length es)
len_value _ = err type_error

abbrev pub is_zero : ℤ → Bool
is_zero (pos n) = n == 0
is_zero (negsuc n) = false

-- bool(v)
unfoldable pub is_truthy : Object → Bool
unfolding items_length entries_length
is_truthy null = false
is_truthy (bool b) = b
is_truthy (int n) = not (is_zero n)
is_truthy (float (finite n e)) = not (is_zero n)
is_truthy (str s) = not (str_eq s "")
is_truthy (list xs) = not (items_length xs == 0)
is_truthy (tuple xs) = not (items_length xs == 0)
is_truthy (dict es) = not (entries_length es == 0)
is_truthy _ = true
