-- ===== src/Tests/HexCodec.antt =====
-- A codec that does what the crate `hex` documents.
use wifi_ctrl.Prelude.{
  ℕ, zero, suc, ◌+◌, ◌*◌, ◌/◌, ◌%◌, true, [], ◌∷◌, Option, none, some, ◌≡◌, refl, arith, All, all,
  length,
}
use wifi_ctrl.Text.{Bytes}
use wifi_ctrl.Text.Hex.{
  Hex, IsHex, hex_char, is_ascii_hexdigit, to_ascii_lowercase, IsByte, hex_char_lem,
  hex_char-to_hex_digit,
}
use wifi_ctrl.Text.Number.{to_hex_digit}

infixl 5 ◌>>=◌
abbrev ◌>>=◌ : {A B : Type 0} → Option A → (A → Option B) → Option B
none >>= f = none
some a >>= f = f a

unfoldable pub encode : Bytes → Bytes
encode [] = []
encode (b ∷ bs) = hex_char (b / 16) ∷ hex_char (b % 16) ∷ encode bs

unfoldable pub decode : Bytes → Option Bytes
decode [] = some []
decode (h ∷ []) = none
decode (h ∷ l ∷ r) = do
  a ← to_hex_digit h
  b ← to_hex_digit l
  rest ← decode r
  some ((a * 16 + b) ∷ rest)

abbrev pub codec : Hex
codec = record { encode = encode; decode = decode }

length-encode : (b : Bytes) → length (encode b) ≡ 2 * length b
unfolding encode
length-encode [] = refl
length-encode (x ∷ b) = omega (arith, length-encode b)

encode_digits :
    (b : Bytes)
    → All IsByte b
    → All (λ c. (is_ascii_hexdigit c ≡ true) × (to_ascii_lowercase c ≡ c)) (encode b)
unfolding encode
encode_digits [] h = tt
encode_digits (x ∷ b) h = (
  ((hex_char_lem (x / 16) (omega arith)).1, ground arith),
  (((hex_char_lem (x % 16) (omega arith)).1, ground arith), encode_digits b h.1),
)

decode-encode : (b : Bytes) → All IsByte b → decode (encode b) ≡ some b
unfolding encode decode
decode-encode [] h = refl
decode-encode (x ∷ b) h =
    let hi = (hex_char_lem (x / 16) (omega arith)).0 in
    let lo = (hex_char_lem (x % 16) (omega arith)).0 in
    let value : x / 16 * 16 + x % 16 ≡ x = omega arith in
    rw (hi, lo, decode-encode b h.1, value) refl

decode_digits :
    (s : Bytes) (n : ℕ)
    → length s ≡ 2 * n
    → all is_ascii_hexdigit s ≡ true
    → (b : Bytes) × (decode s ≡ some b) × (length b ≡ n) × All IsByte b
unfolding decode
decode_digits [] n l h = ([], refl, omega arith, tt)
decode_digits (p ∷ []) n l h = absurd (omega arith)
decode_digits (p ∷ q ∷ s) zero l h = absurd (omega arith)
decode_digits (p ∷ q ∷ s) (suc n) l h =
    let (a, va, la, ca) = hex_char-to_hex_digit p (ground arith) in
    let (b, vb, lb, cb) = hex_char-to_hex_digit q (ground arith) in
    let (rest, r, len, bytes) = decode_digits s n (omega arith) (ground arith) in
    ((a * 16 + b) ∷ rest, rw (va, vb, r) refl, omega (arith, len), (omega arith, bytes))

pub codec-IsHex : IsHex codec
codec-IsHex = record {
  encode_length = length-encode;
  encode_digits = encode_digits;
  decode_encode = decode-encode;
  decode_digits = decode_digits;
}
