-- ===== src/Engine/AuditCapture.antt =====
-- src/justflow/engine/audit_capture.py: what of an audit record is archived. Objects are values, so
-- `_copy_json` is the identity and stands nowhere. `int` of a text and the bytes of the strict JSON
-- of payloads are parameters.
pub mod Agreement
pub mod Redaction
pub mod Metadata
use Prim.Native.Char.{Char, code}
use text.Mathlib.Text.{◌==◌ as str_eq}
use justflow.Common.{
  ℕ, zero, suc, String, Bool, true, false, not, ◌&&◌, ◌||◌, Option, none, some, List, [], ◌∷◌, ◌++◌,
  leb, ltb, ◌==◌, if◌then◌else◌,
}
use justflow.Common.Int.{ℤ, pos, negsuc}
use justflow.Config.Grammar.{chars, text_of}
use justflow.Engine.Exceptions.{Raised, value_error, Result, ok, err, guard, ◌>>=◌}
use justflow.Engine.Data.Objects.{
  Object, int, str, list, dict, Items, nil, cons, Entries, end, entry, Key, key, opaque, find_entry,
  has_entry, items_length,
}
use justflow.Engine.Worklist.{member}
use justflow.Engine.Runner.Invoke.{set_entry, assigned}

-- the capture of config/models.py; a redaction path is a JSON Pointer
pub data AuditCapture : Type 0 where
  metadata_only_capture : AuditCapture
  redacted_capture : (paths : List String) (max_payload_bytes : ℕ) → AuditCapture
  approved_full_capture : (max_payload_bytes : ℕ) → AuditCapture

abbrev pub step_metadata_fields : List String
step_metadata_fields =
    "seq" ∷ "status" ∷ "started_at" ∷ "duration_ms" ∷ "condition" ∷ "then" ∷ "signal" ∷ "sleep_sec"
    ∷ "attempts" ∷ "cache" ∷ "items_total" ∷ "items_failed" ∷ "code" ∷ []

abbrev pub failure_metadata_fields : List String
failure_metadata_fields = "step" ∷ "code" ∷ "cause_code" ∷ []

abbrev pub detail_metadata_fields : List String
detail_metadata_fields = "step" ∷ "code" ∷ "cause_code" ∷ "category" ∷ "phase" ∷ "retryable" ∷ []

abbrev pub payload_fields : List String
payload_fields = "params" ∷ "globals" ∷ "input" ∷ "output" ∷ "result" ∷ "message" ∷ []

abbrev pub left_out : List String
left_out = "params" ∷ "steps" ∷ "error" ∷ "failures" ∷ "result" ∷ "secondary" ∷ []

-- key in names
abbrev pub is_among : List String → Key → Bool
is_among names (key k) = member k names
is_among names (opaque k) = false

unfoldable pub keep_fields : List String → Entries → Entries
unfolding member
keep_fields names end = end
keep_fields names (entry k v es) =
    let rest = keep_fields names es in if is_among names k then entry k v rest else rest

unfoldable pub drop_fields : List String → Entries → Entries
unfolding member
drop_fields names end = end
drop_fields names (entry k v es) =
    let rest = drop_fields names es in if is_among names k then rest else entry k v rest

unfoldable pub bare_steps : Entries → Entries
unfolding keep_fields
bare_steps end = end
bare_steps (entry k (dict es) steps) =
    entry k (dict (keep_fields step_metadata_fields es)) (bare_steps steps)
bare_steps (entry k v steps) = bare_steps steps

unfoldable pub bare_failures : List String → Items → Items
unfolding keep_fields
bare_failures names nil = nil
bare_failures names (cons (dict es) xs) =
    cons (dict (keep_fields names es)) (bare_failures names xs)
bare_failures names (cons v xs) = bare_failures names xs

abbrev pub with_steps : Option Object → Entries → Entries
with_steps (some (dict steps)) captured = set_entry "steps" (dict (bare_steps steps)) captured
with_steps (some (list steps)) captured = set_entry "steps" (list steps) captured
with_steps _ captured = captured

abbrev pub with_error : Option Object → Entries → Entries
with_error (some (dict es)) captured =
    set_entry "error" (dict (keep_fields detail_metadata_fields es)) captured
with_error _ captured = captured

abbrev pub with_failures : String → List String → Option Object → Entries → Entries
with_failures name fields (some (list xs)) captured =
    set_entry name (list (bare_failures fields xs)) captured
with_failures name fields _ captured = captured

-- `_metadata_only`
unfoldable pub metadata_only : Entries → Entries
unfolding drop_fields keep_fields bare_steps bare_failures find_entry set_entry
metadata_only r = with_failures "secondary" detail_metadata_fields (find_entry "secondary" r) (
    with_failures "failures" failure_metadata_fields (find_entry "failures" r) (
      with_error (find_entry "error" r)
        (with_steps (find_entry "steps" r) (drop_fields left_out r))))

-- `_collect_payloads`
unfoldable mutual
  pub collect_payloads : Object → List Object
  collect_payloads (dict es) = payload_entries es
  collect_payloads (list xs) = payload_items xs
  collect_payloads _ = []

  pub payload_entries : Entries → List Object
  payload_entries end = []
  payload_entries (entry k v es) =
      let rest = payload_entries es in
      let below = collect_payloads v in
      if is_among payload_fields k then v ∷ rest else below ++ rest

  pub payload_items : Items → List Object
  payload_items nil = []
  payload_items (cons v xs) = collect_payloads v ++ payload_items xs

-- text.replace("~" + digit, by)
unfoldable pub replace_escape : (digit : ℕ) (by : Char) → List Char → List Char
replace_escape digit by [] = []
replace_escape digit by (c ∷ []) = c ∷ []
replace_escape digit by (c ∷ d ∷ cs) =
    let rest = replace_escape digit by cs in
    let later = replace_escape digit by (d ∷ cs) in
    if code c == b'~' && code d == digit then by ∷ rest else c ∷ later

-- text.split("/"): the first part, and the others
unfoldable pub split_slashes : List Char → List Char × List (List Char)
split_slashes [] = ([], [])
split_slashes (c ∷ cs) =
    let (first, rest) = split_slashes cs in
    if code c == b'/' then ([], first ∷ rest) else (c ∷ first, rest)

unfoldable pub unescape : List Char → String
unfolding replace_escape
unescape cs = text_of (replace_escape b'0' "~" (replace_escape b'1' "/" cs))

unfoldable pub unescape_all : List (List Char) → List String
unfolding unescape
unescape_all [] = []
unescape_all (cs ∷ css) = unescape cs ∷ unescape_all css

abbrev pub tokens_of : List Char → Result (List String)
tokens_of [] = err value_error
tokens_of (c ∷ cs) =
    let (first, rest) = split_slashes cs in
    if code c == b'/' then ok (unescape first ∷ unescape_all rest) else err value_error

unfoldable pub pointer_tokens : String → Result (List String)
unfolding split_slashes unescape unescape_all
pointer_tokens pointer = tokens_of (chars pointer)

unfoldable pub map_entries : (Object → Object) → Entries → Entries
map_entries f end = end
map_entries f (entry k v es) = entry k (f v) (map_entries f es)

unfoldable pub map_items : (Object → Object) → Items → Items
map_items f nil = nil
map_items f (cons v xs) = cons (f v) (map_items f xs)

abbrev pub is_key : String → Key → Bool
is_key token (key k) = str_eq k token
is_key token (opaque k) = false

unfoldable pub map_key : String → (Object → Object) → Entries → Entries
map_key token f end = end
map_key token f (entry k v es) = entry k (if is_key token k then f v else v) (map_key token f es)

unfoldable pub map_at : ℕ → (Object → Object) → Items → Items
map_at i f nil = nil
map_at zero f (cons v xs) = cons (f v) xs
map_at (suc i) f (cons v xs) = cons v (map_at i f xs)

module _ (int_of : String → Option ℤ) where
  abbrev pub at_index : Option ℤ → (Object → Object) → Items → Items
  at_index none f xs = xs
  at_index (some (negsuc n)) f xs = xs
  at_index (some (pos i)) f xs = if ltb i (items_length xs) then map_at i f xs else xs

  -- The values that one token points at.
  unfoldable pub descend : String → (Object → Object) → Object → Object
  unfolding map_entries map_items map_key map_at has_entry items_length
  descend token f (dict es) =
      if str_eq token "*"
      then dict (map_entries f es)
      else if has_entry token es
      then dict (map_key token f es)
      else dict es
  descend token f (list xs) =
      if str_eq token "*" then list (map_items f xs) else list (at_index (int_of token) f xs)
  descend token f v = v

  -- `_redact_at`
  unfoldable pub redact_at : List String → Object → Object
  unfolding descend
  redact_at [] v = str "[REDACTED]"
  redact_at (token ∷ remaining) v = descend token (redact_at remaining) v

  unfoldable pub redact_pointers : List String → Object → Result Object
  unfolding pointer_tokens redact_at
  redact_pointers [] captured = ok captured
  redact_pointers (pointer ∷ pointers) captured =
      pointer_tokens pointer >>= λ tokens. redact_pointers pointers (redact_at tokens captured)

  module _ (payload_bytes : List Object → Result ℕ) where
    -- `_enforce_payload_limit`, which returns the record; AuditCaptureLimitError is a ValueError
    abbrev pub enforce_payload_limit : ℕ → Object → Result Object
    enforce_payload_limit limit captured = payload_bytes (collect_payloads captured) >>= λ actual.
        (guard (leb actual limit) value_error >>= λ u. ok captured)

    abbrev pub stamped : String → Object → Result Object
    stamped mode captured = assigned captured "capture_mode" (str mode) >>= λ captured'.
        assigned captured' "serialization_version" (int (pos 1))

    unfoldable pub capture_audit_record : Entries → AuditCapture → Result Object
    unfolding metadata_only redact_pointers collect_payloads set_entry
    capture_audit_record r metadata_only_capture = stamped "metadata-only" (dict (metadata_only r))
    capture_audit_record r (redacted_capture paths limit) =
        redact_pointers paths (dict r) >>= λ captured.
        (enforce_payload_limit limit captured >>= stamped "redacted")
    capture_audit_record r (approved_full_capture limit) =
        enforce_payload_limit limit (dict r) >>= stamped "approved-full"
