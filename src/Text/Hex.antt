-- ===== src/Text/Hex.antt =====
-- Hexadecimal text: `{:02x}`, `is_ascii_hexdigit`, and the interface of the `hex` crate.
use wifi_ctrl.Prelude.{
  ℕ, ◌+◌, ◌-◌, ◌*◌, ◌/◌, ◌%◌, ◌<◌, Bool, true, ◌&&◌, ◌||◌, [], ◌∷◌, Option, some, ltb, leb,
  if◌then◌else◌, ◌≡◌, ◌≢◌, arith, All, ok, length, all,
}
use wifi_ctrl.Text.{Bytes}
use wifi_ctrl.Text.Number.{to_hex_digit, parse_hex_u8, parse_digits}

abbrev pub hex_char : ℕ → ℕ
hex_char d = if ltb d 10 then b'0' + d else b'a' + d - 10

-- `{:02x}` of a byte.
abbrev pub lower_hex : ℕ → Bytes
lower_hex b = hex_char (b / 16) ∷ hex_char (b % 16) ∷ []

abbrev pub is_ascii_hexdigit : ℕ → Bool
is_ascii_hexdigit c =
    (leb b'0' c && leb c b'9') || (leb b'a' c && leb c b'f') || (leb b'A' c && leb c b'F')

abbrev pub to_ascii_lowercase : ℕ → ℕ
to_ascii_lowercase c = if leb b'A' c && leb c b'Z' then c + 32 else c

abbrev pub IsByte : ℕ → Type 0
IsByte b = b < 256

-- The crate `hex`: `encode`, and `decode_to_slice`, which fails at what is no hexadecimal text.
pub record Hex : Type 0 where
  pub encode : Bytes → Bytes
  pub decode : Bytes → Option Bytes

-- What its documentation says: two lower-case digits for each byte, `decode` undoes `encode`, and
-- every text of an even number of digits is decoded.
pub record IsHex (hex : Hex) : Type 0 where
  pub encode_length : (b : Bytes) → length (hex.encode b) ≡ 2 * length b
  pub encode_digits :
      (b : Bytes)
      → All IsByte b
      → All (λ c. (is_ascii_hexdigit c ≡ true) × (to_ascii_lowercase c ≡ c)) (hex.encode b)
  pub decode_encode : (b : Bytes) → All IsByte b → hex.decode (hex.encode b) ≡ some b
  pub decode_digits :
      (s : Bytes) (n : ℕ)
      → length s ≡ 2 * n
      → all is_ascii_hexdigit s ≡ true
      → (b : Bytes) × (hex.decode s ≡ some b) × (length b ≡ n) × All IsByte b

-- The digits of a value below 16 are read back.
pub hex_char_lem :
    (d : ℕ)
    → d < 16
    → (to_hex_digit (hex_char d) ≡ some d)
      × (is_ascii_hexdigit (hex_char d) ≡ true)
      × (hex_char d ≢ b':')
      × (hex_char d ≢ b'+')
      × (hex_char d < 0x80)
hex_char_lem d h = ground arith

-- A digit in upper or lower case has the value of its lower-case form.
pub hex_char-to_hex_digit :
    (c : ℕ)
    → is_ascii_hexdigit c ≡ true
    → (d : ℕ) × (to_hex_digit c ≡ some d) × (d < 16) × (hex_char d ≡ to_ascii_lowercase c)
hex_char-to_hex_digit c h = (value, ground arith, ground arith, ground arith)
  where
    value : ℕ
    value = if leb c b'9' then c - b'0' else if leb b'a' c then c - b'a' + 10 else c - b'A' + 10

-- The value of a digit, and that it is ASCII.
pub to_hex_digit_bounds : (c a : ℕ) → to_hex_digit c ≡ some a → (a < 16) × (c < 0x80) × (c ≢ b'+')
to_hex_digit_bounds c a h = ground arith

pub parse_hex_u8-digits :
    (h l a b : ℕ)
    → to_hex_digit h ≡ some a
    → to_hex_digit l ≡ some b
    → parse_hex_u8 (h ∷ l ∷ []) ≡ ok (a * 16 + b)
unfolding parse_hex_u8 parse_digits
parse_hex_u8-digits h l a b p q =
    ground (arith, to_hex_digit_bounds h a p, to_hex_digit_bounds l b q)
