-- ===== src/Config/Grammar.antt =====
-- src/justflow/config/grammar.py: `parse_placeholders`. A text is the list of its characters.
use Prim.Native.Char.{Char, code}
use justflow.Common.{
  ℕ, ◌+◌, ◌-◌, String, Bool, true, false, ◌&&◌, ◌||◌, List, [], ◌∷◌, ◌++◌, leb, ◌==◌, if◌then◌else◌,
}
use justflow.Engine.Exceptions.{placeholder_syntax, Result, ok, err, ◌>>=◌}

abbrev pub chars : String → List Char
chars String.[] = []
chars (String.◌∷◌ c s) = c ∷ chars s

abbrev pub text_of : List Char → String
text_of [] = String.[]
text_of (c ∷ cs) = String.◌∷◌ c (text_of cs)

pub record Placeholder : Type 0 where
  pub name : String
  pub start : ℕ
  pub stop : ℕ

abbrev is_letter : ℕ → Bool
is_letter c = leb b'A' c && leb c b'Z' || (leb b'a' c && leb c b'z' || c == b'_')

abbrev is_digit : ℕ → Bool
is_digit c = leb b'0' c && leb c b'9'

abbrev all_word : List Char → Bool
all_word [] = true
all_word (c ∷ cs) = (is_letter (code c) || is_digit (code c)) && all_word cs

-- REFERENCE_COMPONENT_PATTERN.fullmatch
unfoldable pub is_identifier : List Char → Bool
is_identifier [] = false
is_identifier (c ∷ cs) = is_letter (code c) && all_word cs

-- Where the scan is: before a "${", with the last character a "$" or not, or within a name.
pub data Mode : Type 0 where
  seeking : (dollar : Bool) → Mode
  naming : (start : ℕ) → List Char → Mode

pub data Move : Type 0 where
  onward : Mode → Move
  found : Placeholder → Move
  malformed : Move

-- One character, at its position.
unfoldable pub move : Mode → Char → ℕ → Move
unfolding is_identifier
move (seeking dollar) c pos =
    if dollar && code c == b'{'
    then onward (naming (pos - 1) [])
    else onward (seeking (code c == b'$'))
move (naming start name) c pos =
    if code c == b'}'
    then if is_identifier name
      then found (record { name = text_of name; start = start; stop = pos + 1 })
      else malformed
    else onward (naming start (name ++ c ∷ []))

unfoldable pub scan : List Char → ℕ → Mode → Result (List Placeholder)
unfolding move
scan [] pos (seeking dollar) = ok []
scan [] pos (naming start name) = err placeholder_syntax
scan (c ∷ cs) pos mode = elim (move mode c pos) [
  | onward mode' ↦ scan cs (pos + 1) mode'
  | found p ↦ scan cs (pos + 1) (seeking false) >>= λ ps. ok (p ∷ ps)
  | malformed ↦ err placeholder_syntax
]

unfoldable pub parse_placeholders : String → Result (List Placeholder)
unfolding scan
parse_placeholders value = scan (chars value) 0 (seeking false)
