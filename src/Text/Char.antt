-- ===== src/Text/Char.antt =====
-- `parse` of a `char`. A character is given as its UTF-8 bytes.
use wifi_ctrl.Prelude.{ℕ, ◌+◌, ◌&&◌, [], ◌∷◌, leb, ltb, if◌then◌else◌, Result, ok, err}
use wifi_ctrl.Text.{Bytes, codes}

-- `CharErrorKind`, and the text that `ParseCharError` displays.
pub data CharError : Type 0 where
  empty_string too_many_chars : CharError

abbrev pub describe_char : CharError → Bytes
describe_char empty_string = codes "cannot parse char from empty string"
describe_char too_many_chars = codes "too many characters in string"

-- The characters of a text: its bytes but those that continue one.
unfoldable pub count_chars : Bytes → ℕ
count_chars [] = 0
count_chars (x ∷ xs) = (if leb 0x80 x && ltb x 0xc0 then 0 else 1) + count_chars xs

unfoldable pub parse_char : Bytes → Result CharError Bytes
unfolding count_chars
parse_char [] = err empty_string
parse_char (x ∷ xs) = if leb (count_chars (x ∷ xs)) 1 then ok (x ∷ xs) else err too_many_chars
