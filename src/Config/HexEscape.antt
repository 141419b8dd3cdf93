-- ===== src/Config/HexEscape.antt =====
-- What the two characters behind `\\x` stand for.
use wifi_ctrl.Prelude.{
  ℕ, ◌+◌, ◌*◌, ◌≤◌, ◌≡◌, ◌⊎◌, ◌==◌, [], ◌∷◌, some, ok, ◌↔◌, leb, true, map_err, inl, inr, arith,
  Bool-cases, Option-cases, >>=-eq-ok, map_err-eq-ok,
}
use wifi_ctrl.Errors.{invalid_escape}
use wifi_ctrl.Text.Number.{to_hex_digit, parse_hex_u8, parse_digits, pos_overflow}
use wifi_ctrl.Text.Utf8.{IsUtf8, IsUtf8-ascii, from_utf8, from_utf8-eq-ok}
use wifi_ctrl.Text.Hex.{to_hex_digit_bounds, parse_hex_u8-digits}
use wifi_ctrl.Config.Unprintf.{hex_escape}

parse_hex_u8-plus : (l b : ℕ) → to_hex_digit l ≡ some b → parse_hex_u8 (b'+' ∷ l ∷ []) ≡ ok b
unfolding parse_hex_u8 parse_digits
parse_hex_u8-plus l b q = ground (arith, to_hex_digit_bounds l b q)

-- The hexadecimal digit `c` has the value `d`.
abbrev pub HexDigit : ℕ → ℕ → Type 0
HexDigit c d =
    ((b'0' ≤ c) × (c ≤ b'9') × (c ≡ b'0' + d))
    ⊎ ((b'a' ≤ c) × (c ≤ b'f') × (c + 10 ≡ b'a' + d))
    ⊎ ((b'A' ≤ c) × (c ≤ b'F') × (c + 10 ≡ b'A' + d))

-- The characters `h` and `l` behind `\\x` stand for the byte `k`: two digits for their value, and a plus
-- sign with one digit for the value of that, as the standard library reads them.
pub data HexPair (h l k : ℕ) : Type 0 where
  digits : (a b : ℕ) → HexDigit h a → HexDigit l b → k ≡ a * 16 + b → HexPair h l k
  plus : h ≡ b'+' → HexDigit l k → HexPair h l k

to_hex_digit-HexDigit : (c d : ℕ) → to_hex_digit c ≡ some d → HexDigit c d
to_hex_digit-HexDigit c d h = ground arith

HexDigit-to_hex_digit : (c d : ℕ) → HexDigit c d → to_hex_digit c ≡ some d
HexDigit-to_hex_digit c d (inl h) = ground arith
HexDigit-to_hex_digit c d (inr (inl h)) = ground arith
HexDigit-to_hex_digit c d (inr (inr h)) = ground arith

-- Two hexadecimal digits stand for their value, and so does a plus sign with one digit.
hex_escape-digits :
    (h l a b : ℕ)
    → to_hex_digit h ≡ some a
    → to_hex_digit l ≡ some b
    → (hex_escape h l ≡ ok (a * 16 + b)) × (hex_escape b'+' l ≡ ok b)
unfolding hex_escape
hex_escape-digits h l a b p q =
    let valid : IsUtf8 (h ∷ l ∷ []) =
      IsUtf8-ascii (h ∷ l ∷ [])
        ((to_hex_digit_bounds h a p).1, ((to_hex_digit_bounds l b q).1, tt)) in
    let valid_plus : IsUtf8 (b'+' ∷ l ∷ []) =
      IsUtf8-ascii (b'+' ∷ l ∷ []) (omega arith, ((to_hex_digit_bounds l b q).1, tt)) in
    (rw (valid, parse_hex_u8-digits h l a b p q), rw (valid_plus, parse_hex_u8-plus l b q))

HexPair-hex_escape : (h l k : ℕ) → HexPair h l k → hex_escape h l ≡ ok k
HexPair-hex_escape h l k (digits a b p q e) =
    rw e (hex_escape-digits h l a b (HexDigit-to_hex_digit h a p) (HexDigit-to_hex_digit l b q)).0
HexPair-hex_escape h l k (plus e q) =
    rw e (hex_escape-digits l l k k (HexDigit-to_hex_digit l k q) (HexDigit-to_hex_digit l k q)).1

-- The last digit of a text.
last_digit :
    (acc l k : ℕ)
    → parse_digits to_hex_digit 16 255 pos_overflow acc (l ∷ []) ≡ ok k
    → (b : ℕ) × (to_hex_digit l ≡ some b) × (k ≡ acc * 16 + b)
unfolding parse_digits
last_digit acc l k e = elim (Option-cases (to_hex_digit l)) [
  | inl bad ↦ let no = rw bad at e in absurd cc
  | inr (b, good) ↦ let yes = rw good at e in (b, good, ground (arith, yes))
]

two_digits :
    (h l k : ℕ)
    → parse_digits to_hex_digit 16 255 pos_overflow 0 (h ∷ l ∷ []) ≡ ok k
    → (a b : ℕ) × (to_hex_digit h ≡ some a) × (to_hex_digit l ≡ some b) × (k ≡ a * 16 + b)
unfolding parse_digits
two_digits h l k e = elim (Option-cases (to_hex_digit h)) [
  | inl bad ↦ let no = rw bad at e in absurd cc
  | inr (a, good) ↦
      let small = to_hex_digit_bounds h a good in
      let fits : leb (0 * 16 + a) 255 ≡ true = ground arith in
      let e' = rw (good, fits) at e in
      let (b, q, s) = last_digit (0 * 16 + a) l k e' in (a, b, good, q, omega (arith, s))
]

parse_hex_u8-HexPair : (h l k : ℕ) → parse_hex_u8 (h ∷ l ∷ []) ≡ ok k → HexPair h l k
unfolding parse_hex_u8
parse_hex_u8-HexPair h l k e = elim (Bool-cases (h == b'+')) [
  | inl same ↦
      let (b, q, s) = last_digit 0 l k (rw same at e) in
      let same_value : b ≡ k = omega (arith, s) in
      plus (ground arith) (rw same_value at (to_hex_digit-HexDigit l b q))
  | inr other ↦
      let (a, b, p, q, s) = two_digits h l k (rw other at e) in
      digits a b (to_hex_digit-HexDigit h a p) (to_hex_digit-HexDigit l b q) s
]

hex_escape-HexPair : (h l k : ℕ) → hex_escape h l ≡ ok k → HexPair h l k
unfolding hex_escape
hex_escape-HexPair h l k e =
    let (hex, p, q) = >>=-eq-ok (map_err (λ _. invalid_escape) (from_utf8 (h ∷ l ∷ []))) _ e in
    let is = from_utf8-eq-ok (h ∷ l ∷ []) hex (map_err-eq-ok (from_utf8 (h ∷ l ∷ [])) _ p) in
    parse_hex_u8-HexPair h l k (rw is at (map_err-eq-ok (parse_hex_u8 hex) _ q))

-- Two characters can be read exactly when they are of one of these forms.
pub hex_escape_iff : (h l k : ℕ) → (hex_escape h l ≡ ok k) ↔ HexPair h l k
hex_escape_iff h l k = (hex_escape-HexPair h l k, HexPair-hex_escape h l k)
