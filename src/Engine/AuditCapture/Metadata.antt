-- ===== src/Engine/AuditCapture/Metadata.antt =====
-- What `_metadata_only` of engine/audit_capture.py keeps.
use text.Mathlib.Text.{◌==◌ as str_eq}
use text.Mathlib.TextEquality.{eq_iff}
use justflow.Common.{
  String, ◌≡◌, Bool, true, false, Option, some, List, [], ◌∷◌, arith, inl, inr, Bool-cases,
}
use justflow.Engine.Data.Objects.{
  Object, list, dict, Items, nil, cons, Entries, end, entry, Key, key, opaque, find_entry,
}
use justflow.Engine.Worklist.{member}
use justflow.Engine.Runner.Invoke.{set_entry}
use justflow.Engine.AuditCapture.{
  step_metadata_fields, failure_metadata_fields, detail_metadata_fields, left_out, is_among,
  keep_fields, drop_fields, bare_steps, bare_failures, with_steps, with_error, with_failures,
  metadata_only,
}

-- Every entry satisfies P.
abbrev pub AllEntries : (Key → Object → Type 0) → Entries → Type 0
AllEntries P end = Unit
AllEntries P (entry k v es) = P k v × AllEntries P es

-- A dict whose keys are all among the names.
abbrev pub IsWithin : List String → Object → Type 0
IsWithin names (dict es) = AllEntries (λ k v. is_among names k ≡ true) es
IsWithin names _ = ⊥

abbrev pub AllItems : (Object → Type 0) → Items → Type 0
AllItems P nil = Unit
AllItems P (cons v xs) = P v × AllItems P xs

-- The steps of a run's record by their names; a failure's record has a list of them.
abbrev pub IsSteps : Object → Type 0
IsSteps (dict steps) = AllEntries (λ k v. IsWithin step_metadata_fields v) steps
IsSteps (list xs) = Unit
IsSteps _ = ⊥

abbrev pub IsFailures : List String → Object → Type 0
IsFailures names (list xs) = AllItems (IsWithin names) xs
IsFailures names _ = ⊥

abbrev pub IsFieldOf : (steps error failures secondary : Bool) → String → Object → Type 0
IsFieldOf true e f s k v = IsSteps v
IsFieldOf false true f s k v = IsWithin detail_metadata_fields v
IsFieldOf false false true s k v = IsFailures failure_metadata_fields v
IsFieldOf false false false true k v = IsFailures detail_metadata_fields v
IsFieldOf false false false false k v = member k ("params" ∷ "result" ∷ []) ≡ false

-- A field of a captured record: no params and no result, and metadata only of steps and failures.
abbrev pub IsField : Key → Object → Type 0
IsField (opaque n) v = Unit
IsField (key k) v =
    IsFieldOf (str_eq k "steps") (str_eq k "error") (str_eq k "failures") (str_eq k "secondary") k v

keep_fields-IsWithin :
    (names : List String) (es : Entries) → IsWithin names (dict (keep_fields names es))
unfolding keep_fields
keep_fields-IsWithin names end = tt
keep_fields-IsWithin names (entry k v es) = elim (Bool-cases (is_among names k)) [
  | inl kept ↦ rw kept ((kept, keep_fields-IsWithin names es))
  | inr left ↦ rw left (keep_fields-IsWithin names es)
]

bare_steps-IsSteps : (steps : Entries) → IsSteps (dict (bare_steps steps))
unfolding bare_steps
bare_steps-IsSteps end = tt
bare_steps-IsSteps (entry k (dict es) steps) =
    (keep_fields-IsWithin step_metadata_fields es, bare_steps-IsSteps steps)
bare_steps-IsSteps (entry k v steps) = bare_steps-IsSteps steps

bare_failures-IsFailures :
    (names : List String) (xs : Items) → IsFailures names (list (bare_failures names xs))
unfolding bare_failures
bare_failures-IsFailures names nil = tt
bare_failures-IsFailures names (cons (dict es) xs) =
    (keep_fields-IsWithin names es, bare_failures-IsFailures names xs)
bare_failures-IsFailures names (cons v xs) = bare_failures-IsFailures names xs

kept-IsField : (k : Key) (v : Object) → is_among left_out k ≡ false → IsField k v
unfolding member
kept-IsField (opaque n) v h = tt
kept-IsField (key k) v h =
    let steps : str_eq k "steps" ≡ false = ground (arith, eq_iff k "steps", eq_iff "steps" k) in
    let error : str_eq k "error" ≡ false = ground (arith, eq_iff k "error", eq_iff "error" k) in
    let failures : str_eq k "failures" ≡ false =
      ground (arith, eq_iff k "failures", eq_iff "failures" k) in
    let secondary : str_eq k "secondary" ≡ false =
      ground (arith, eq_iff k "secondary", eq_iff "secondary" k) in
    rw (steps, error, failures, secondary) (ground arith)

drop_fields-IsField : (es : Entries) → AllEntries IsField (drop_fields left_out es)
unfolding drop_fields
drop_fields-IsField end = tt
drop_fields-IsField (entry k v es) = elim (Bool-cases (is_among left_out k)) [
  | inl dropped ↦ rw dropped (drop_fields-IsField es)
  | inr kept ↦ rw kept ((kept-IsField k v kept, drop_fields-IsField es))
]

set_entry-IsField :
    (k : String) (v : Object) (es : Entries)
    → IsField (key k) v
    → AllEntries IsField es
    → AllEntries IsField (set_entry k v es)
unfolding set_entry
set_entry-IsField k v end p h = (p, tt)
set_entry-IsField k v (entry (opaque j) w es) p h = (tt, set_entry-IsField k v es p h.1)
set_entry-IsField k v (entry (key j) w es) p h = elim (Bool-cases (str_eq j k)) [
  | inl same ↦ let e : j ≡ k = ground (arith, eq_iff j k) in rw (same, set_entry) (rw e p, h.1)
  | inr different ↦ rw (different, set_entry) ((h.0, set_entry-IsField k v es p h.1))
]

with_steps-IsField :
    (v : Option Object) (es : Entries)
    → AllEntries IsField es
    → AllEntries IsField (with_steps v es)
with_steps-IsField (some (dict steps)) es h =
    set_entry-IsField "steps" _ es (bare_steps-IsSteps steps) h
with_steps-IsField (some (list xs)) es h = set_entry-IsField "steps" _ es tt h
with_steps-IsField _ es h = h

with_error-IsField :
    (v : Option Object) (es : Entries)
    → AllEntries IsField es
    → AllEntries IsField (with_error v es)
with_error-IsField (some (dict error)) es h =
    set_entry-IsField "error" _ es (keep_fields-IsWithin detail_metadata_fields error) h
with_error-IsField _ es h = h

with_failures-IsField :
    (v : Option Object) (es : Entries)
    → AllEntries IsField es
    → AllEntries IsField (with_failures "failures" failure_metadata_fields v es)
with_failures-IsField (some (list xs)) es h =
    set_entry-IsField "failures" _ es (bare_failures-IsFailures failure_metadata_fields xs) h
with_failures-IsField _ es h = h

with_secondary-IsField :
    (v : Option Object) (es : Entries)
    → AllEntries IsField es
    → AllEntries IsField (with_failures "secondary" detail_metadata_fields v es)
with_secondary-IsField (some (list xs)) es h =
    set_entry-IsField "secondary" _ es (bare_failures-IsFailures detail_metadata_fields xs) h
with_secondary-IsField _ es h = h

-- Of any record, what is captured as metadata has no params and no result, of each step its metadata
-- fields only, and of its failures theirs.
pub metadata_only-IsField : (r : Entries) → AllEntries IsField (metadata_only r)
unfolding metadata_only
metadata_only-IsField r = with_secondary-IsField (find_entry "secondary" r) _ (
    with_failures-IsField (find_entry "failures" r) _ (
      with_error-IsField (find_entry "error" r) _
        (with_steps-IsField (find_entry "steps" r) _ (drop_fields-IsField r))))
