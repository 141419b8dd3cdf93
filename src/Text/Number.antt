-- ===== src/Text/Number.antt =====
-- `parse` of integers, `u8::from_str_radix(_, 16)` and the decimal `Display` of a number.
use wifi_ctrl.Prelude.{
  ℕ, zero, suc, ◌+◌, ◌-◌, ◌*◌, ◌/◌, ◌%◌, ◌^◌, ◌≤◌, ◌<◌, Bool, true, ◌&&◌, [], ◌∷◌, Option, none,
  some, ltb, leb, ◌==◌, if◌then◌else◌, Result, ok, err, ◌>>=◌, map_ok, ok_or, ◌≡◌, refl, ◌∙◌, arith,
  Bool-cases, Option-cases, inl, inr, ap, All, ◌≢◌,
}
use wifi_ctrl.Text.{Bytes, codes}

-- `IntErrorKind`, and the text that `ParseIntError` displays.
pub data IntError : Type 0 where
  empty invalid_digit pos_overflow neg_overflow : IntError

abbrev pub describe : IntError → Bytes
describe empty = codes "cannot parse integer from empty string"
describe invalid_digit = codes "invalid digit found in string"
describe pos_overflow = codes "number too large to fit in target type"
describe neg_overflow = codes "number too small to fit in target type"

-- `char::to_digit(10)` and `char::to_digit(16)`.
abbrev pub to_digit : ℕ → Option ℕ
to_digit c = if leb b'0' c && leb c b'9' then some (c - b'0') else none

abbrev pub to_hex_digit : ℕ → Option ℕ
to_hex_digit c =
    if leb b'0' c && leb c b'9'
    then some (c - b'0')
    else if leb b'a' c && leb c b'f'
    then some (c - b'a' + 10)
    else if leb b'A' c && leb c b'F'
    then some (c - b'A' + 10)
    else none

-- The loop over digits: the value may not pass `limit`, which is tested at each digit.
unfoldable pub parse_digits : (ℕ → Option ℕ) → ℕ → ℕ → IntError → ℕ → Bytes → Result IntError ℕ
parse_digits digit radix limit over acc [] = ok acc
parse_digits digit radix limit over acc (c ∷ cs) = do
  d ← ok_or (digit c) invalid_digit
  let next = parse_digits digit radix limit over (acc * radix + d) cs
  if leb (acc * radix + d) limit then next else err over

-- An unsigned integer: one `+` may stand in front.
parse_unsigned_in : (ℕ → Option ℕ) → ℕ → ℕ → Bytes → Result IntError ℕ
unfolding parse_digits
parse_unsigned_in digit radix limit [] = err empty
parse_unsigned_in digit radix limit (c ∷ []) =
    parse_digits digit radix limit pos_overflow 0 (c ∷ [])
parse_unsigned_in digit radix limit (c ∷ d ∷ cs) =
    parse_digits digit radix limit pos_overflow 0 (if c == b'+' then d ∷ cs else c ∷ d ∷ cs)

abbrev pub usize_max : ℕ
usize_max = 2 ^ 64 - 1

abbrev pub u32_max : ℕ
u32_max = 2 ^ 32 - 1

unfoldable pub parse_unsigned : ℕ → Bytes → Result IntError ℕ
unfolding parse_unsigned_in
parse_unsigned = parse_unsigned_in to_digit 10

-- `u8::from_str_radix(_, 16)`.
unfoldable pub parse_hex_u8 : Bytes → Result IntError ℕ
unfolding parse_unsigned_in
parse_hex_u8 = parse_unsigned_in to_hex_digit 16 255

-- A signed integer: `negsuc n` is -(n + 1).
pub data ℤ : Type 0 where
  pos : ℕ → ℤ
  negsuc : ℕ → ℤ

abbrev pub pos_part : ℤ → ℕ
pos_part (pos n) = n
pos_part (negsuc n) = 0

abbrev pub neg_part : ℤ → ℕ
neg_part (pos n) = 0
neg_part (negsuc n) = suc n

abbrev pub leb_ℤ : ℤ → ℤ → Bool
leb_ℤ a b = leb (pos_part a + neg_part b) (pos_part b + neg_part a)

abbrev pub negative : ℕ → ℤ
negative zero = pos 0
negative (suc n) = negsuc n

-- `isize` and `i32` by the number of bits less one; a single sign is no number.
unfoldable pub parse_signed : ℕ → Bytes → Result IntError ℤ
unfolding parse_digits
parse_signed bits [] = err empty
parse_signed bits (c ∷ []) =
    map_ok pos (parse_digits to_digit 10 (2 ^ bits - 1) pos_overflow 0 (c ∷ []))
parse_signed bits (c ∷ d ∷ cs) =
    if c == b'-'
    then map_ok negative (parse_digits to_digit 10 (2 ^ bits) neg_overflow 0 (d ∷ cs))
    else map_ok pos (
        parse_digits to_digit 10 (2 ^ bits - 1) pos_overflow 0
          (if c == b'+' then d ∷ cs else c ∷ d ∷ cs))

-- `Display` of an unsigned integer. Each round takes a digit off, so `n + 1` rounds are enough.
decimal_onto : ℕ → ℕ → Bytes → Bytes
decimal_onto zero n rest = rest
decimal_onto (suc f) n rest =
    let more = decimal_onto f (n / 10) ((b'0' + n % 10) ∷ rest) in
    if ltb n 10 then (b'0' + n) ∷ rest else more

unfoldable pub to_decimal : ℕ → Bytes
unfolding decimal_onto
to_decimal n = decimal_onto (suc n) n []

-- One digit is read.
parse_digits-digit :
    (acc d n limit : ℕ) (over : IntError) (rest : Bytes)
    → acc * 10 + d ≡ n
    → d < 10
    → n ≤ limit
    → parse_digits to_digit 10 limit over acc ((b'0' + d) ∷ rest)
      ≡ parse_digits to_digit 10 limit over n rest
unfolding parse_digits
parse_digits-digit acc d n limit over rest e h le =
    rw (digit_of, fits) (ap (λ k. parse_digits to_digit 10 limit over k rest) e)
  where
    digit_of : to_digit (b'0' + d) ≡ some d
    digit_of = ground arith

    fits : leb (acc * 10 + d) limit ≡ true
    fits = ground arith

-- Printing, then reading, with any text behind the digits.
parse_digits-decimal_onto :
    (f n limit : ℕ) (over : IntError) (rest : Bytes)
    → n < f
    → n ≤ limit
    → parse_digits to_digit 10 limit over 0 (decimal_onto f n rest)
      ≡ parse_digits to_digit 10 limit over n rest
unfolding decimal_onto
parse_digits-decimal_onto zero n limit over rest h le = elim h [ ]
parse_digits-decimal_onto (suc f) n limit over rest h le = elim (Bool-cases (ltb n 10)) [
  | inl small ↦ rw small (parse_digits-digit 0 n n limit over rest (omega arith) (ground arith) le)
  | inr more ↦ rw more (
      parse_digits-decimal_onto f (n / 10) limit over ((b'0' + n % 10) ∷ rest) (ground arith)
        (omega arith)
      ∙ parse_digits-digit (n / 10) (n % 10) n limit over rest (omega arith) (omega arith) le)
]

-- Digits only, and at least one.
abbrev pub IsDigit : ℕ → Type 0
IsDigit c = (b'0' ≤ c) × (c ≤ b'9')

decimal_onto-IsDigit :
    (f n : ℕ) (rest : Bytes) → n < f → All IsDigit rest → All IsDigit (decimal_onto f n rest)
unfolding decimal_onto
decimal_onto-IsDigit zero n rest h a = elim h [ ]
decimal_onto-IsDigit (suc f) n rest h a =
    ground (arith, decimal_onto-IsDigit f (n / 10) ((b'0' + n % 10) ∷ rest))

pub to_decimal-IsDigit : (n : ℕ) → All IsDigit (to_decimal n)
unfolding to_decimal
to_decimal-IsDigit n = decimal_onto-IsDigit (suc n) n [] (omega arith) tt

decimal_onto-ne-nil : (f n x : ℕ) (rest : Bytes) → decimal_onto f n (x ∷ rest) ≢ []
unfolding decimal_onto
decimal_onto-ne-nil zero n x rest h = cc
decimal_onto-ne-nil (suc f) n x rest h =
    ground (arith, decimal_onto-ne-nil f (n / 10) (b'0' + n % 10) (x ∷ rest))

to_decimal-ne-nil : (n : ℕ) → to_decimal n ≢ []
unfolding to_decimal decimal_onto
to_decimal-ne-nil n h = ground (arith, decimal_onto-ne-nil n (n / 10) (b'0' + n % 10) [])

-- A text of digits is read with no sign.
parse_unsigned-digits :
    (limit : ℕ) (s : Bytes)
    → s ≢ []
    → All IsDigit s
    → parse_unsigned limit s ≡ parse_digits to_digit 10 limit pos_overflow 0 s
unfolding parse_unsigned
parse_unsigned-digits limit [] h a = absurd (h refl)
parse_unsigned-digits limit (c ∷ []) h a = refl
parse_unsigned-digits limit (c ∷ d ∷ cs) h a = ground arith

-- What is printed is read back, up to the type's largest value.
pub parse_unsigned-to_decimal :
    (limit n : ℕ) → n ≤ limit → parse_unsigned limit (to_decimal n) ≡ ok n
parse_unsigned-to_decimal limit n h =
    parse_unsigned-digits limit _ (to_decimal-ne-nil n) (to_decimal-IsDigit n)
    ∙ unfold to_decimal in
      parse_digits-decimal_onto (suc n) n limit pos_overflow [] (omega arith) h
      ∙ unfold parse_digits in refl

parse_digits-le :
    (digit : ℕ → Option ℕ) (radix limit acc n : ℕ) (over : IntError) (s : Bytes)
    → acc ≤ limit
    → parse_digits digit radix limit over acc s ≡ ok n
    → n ≤ limit
unfolding parse_digits
parse_digits-le digit radix limit acc n over [] h e = ground arith
parse_digits-le digit radix limit acc n over (c ∷ cs) h e = elim (Option-cases (digit c)) [
  | inl bad ↦ ground arith
  | inr (d, good) ↦ ground (arith, parse_digits-le digit radix limit (acc * radix + d) n over cs)
]

-- No value above the type's largest is returned.
pub parse_unsigned-le : (limit : ℕ) (s : Bytes) (n : ℕ) → parse_unsigned limit s ≡ ok n → n ≤ limit
unfolding parse_unsigned
parse_unsigned-le limit [] n e = cc
parse_unsigned-le limit (c ∷ []) n e =
    parse_digits-le to_digit 10 limit 0 n pos_overflow (c ∷ []) (omega arith) e
parse_unsigned-le limit (c ∷ d ∷ cs) n e =
    parse_digits-le to_digit 10 limit 0 n pos_overflow (if c == b'+' then d ∷ cs else c ∷ d ∷ cs)
      (omega arith) e
