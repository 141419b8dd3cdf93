-- ===== src/Text/Utf8.antt =====
-- `str::from_utf8` and `String::from_utf8_lossy`.
use wifi_ctrl.Prelude.{
  ℕ, zero, suc, ◌+◌, ◌-◌, ◌<◌, Bool, true, false, ◌&&◌, ◌||◌, [], ◌∷◌, Option, none, some, ltb, leb,
  ◌==◌, if◌then◌else◌, Result, ok, err, ◌≡◌, refl, ap, ◌⊎◌, inl, inr, All, arith,
}
use wifi_ctrl.Text.{Bytes}

-- `Utf8Error`: where the valid part ends, and how many bytes are wrong (`none`: the text stops
-- inside a character).
pub record Utf8Error : Type 0 where
  pub valid_up_to : ℕ
  pub error_len : Option ℕ

-- The character at the front: it has so many bytes, or so many bytes are wrong.
pub data Lead : Type 0 where
  char : ℕ → Lead
  wrong : Option ℕ → Lead

abbrev between : ℕ → ℕ → ℕ → Bool
between lo hi x = leb lo x && leb x hi

abbrev is_continuation : ℕ → Bool
is_continuation = between 0x80 0xbf

-- Whether `y` may follow the first byte `x` of three or four.
abbrev second_of_three : ℕ → ℕ → Bool
second_of_three x y =
    (x == 0xe0 && between 0xa0 0xbf y)
    || (between 0xe1 0xec x && between 0x80 0xbf y)
    || (x == 0xed && between 0x80 0x9f y)
    || (between 0xee 0xef x && between 0x80 0xbf y)

abbrev second_of_four : ℕ → ℕ → Bool
second_of_four x y =
    (x == 0xf0 && between 0x90 0xbf y)
    || (between 0xf1 0xf3 x && between 0x80 0xbf y)
    || (x == 0xf4 && between 0x80 0x8f y)

-- `n` more continuation bytes are wanted, and `seen` bytes were read.
last_bytes : ℕ → ℕ → Bytes → Lead
last_bytes zero seen s = char seen
last_bytes (suc n) seen [] = wrong none
last_bytes (suc n) seen (x ∷ xs) =
    if is_continuation x then last_bytes n (suc seen) xs else wrong (some seen)

second_byte : (ℕ → Bool) → ℕ → Bytes → Lead
second_byte fits n [] = wrong none
second_byte fits n (y ∷ ys) = if fits y then last_bytes n 2 ys else wrong (some 1)

pub lead : ℕ → Bytes → Lead
unfolding second_byte last_bytes
lead x rest =
    if ltb x 0x80
    then char 1
    else if between 0xc2 0xdf x
    then second_byte is_continuation 0 rest
    else if between 0xe0 0xef x
    then second_byte (second_of_three x) 1 rest
    else if between 0xf0 0xf4 x
    then second_byte (second_of_four x) 2 rest
    else wrong (some 1)

-- The first error; `k` bytes of the character before `pos` are still to come.
utf8_error : ℕ → ℕ → Bytes → Option Utf8Error
utf8_error pos k [] = none
utf8_error pos (suc k) (x ∷ xs) = utf8_error pos k xs
utf8_error pos zero (x ∷ xs) = elim (lead x xs) [
  | char w ↦ utf8_error (pos + w) (w - 1) xs
  | wrong n ↦ some (record { valid_up_to = pos; error_len = n })
]

abbrev or_error : Bytes → Option Utf8Error → Result Utf8Error Bytes
or_error s none = ok s
or_error s (some e) = err e

unfoldable pub from_utf8 : Bytes → Result Utf8Error Bytes
unfolding utf8_error lead
from_utf8 s = or_error s (utf8_error 0 0 s)

abbrev pub IsUtf8 : Bytes → Type 0
IsUtf8 s = from_utf8 s ≡ ok s

-- U+FFFD stands for each wrong part. `keep` says whether the `k` bytes to come are copied.
lossy : Bool → ℕ → Bytes → Bytes
lossy keep k [] = []
lossy keep (suc k) (x ∷ xs) = let rest = lossy keep k xs in if keep then x ∷ rest else rest
lossy keep zero (x ∷ xs) = elim (lead x xs) [
  | char w ↦ x ∷ lossy true (w - 1) xs
  | wrong (some n) ↦ 0xef ∷ 0xbf ∷ 0xbd ∷ lossy false (n - 1) xs
  | wrong none ↦ 0xef ∷ 0xbf ∷ 0xbd ∷ []
]

unfoldable pub from_utf8_lossy : Bytes → Bytes
unfolding lossy lead
from_utf8_lossy = lossy true 0

-- Lemmas.

Lead-cases : (l : Lead) → ((w : ℕ) × (l ≡ char w)) ⊎ ((n : Option ℕ) × (l ≡ wrong n))
Lead-cases (char w) = inl (w, refl)
Lead-cases (wrong n) = inr (n, refl)

lossy-utf8_error : (s : Bytes) (k pos : ℕ) → utf8_error pos k s ≡ none → lossy true k s ≡ s
unfolding lossy utf8_error
lossy-utf8_error [] k pos h = refl
lossy-utf8_error (x ∷ xs) (suc k) pos h = rw (lossy-utf8_error xs k pos h)
lossy-utf8_error (x ∷ xs) zero pos h = elim (Lead-cases (lead x xs)) [
  | inl (w, e) ↦ rw (e, lossy) (ap (◌∷◌ x) (lossy-utf8_error xs (w - 1) (pos + w) (ground arith)))
  | inr (n, e) ↦ ground arith
]

-- A valid text is not changed.
pub from_utf8_lossy-IsUtf8 : (s : Bytes) → IsUtf8 s → from_utf8_lossy s ≡ s
unfolding from_utf8_lossy from_utf8
from_utf8_lossy-IsUtf8 s h = lossy-utf8_error s 0 0 (ground arith)

utf8_error-ascii : (s : Bytes) (pos : ℕ) → All (λ x. x < 0x80) s → utf8_error pos 0 s ≡ none
unfolding utf8_error lead
utf8_error-ascii [] pos h = refl
utf8_error-ascii (x ∷ xs) pos h = ground (arith, utf8_error-ascii xs (pos + 1) h.1)

-- ASCII is UTF-8.
pub IsUtf8-ascii : (s : Bytes) → All (λ x. x < 0x80) s → IsUtf8 s
unfolding from_utf8
IsUtf8-ascii s h = rw (utf8_error-ascii s 0 h)

-- A validated text is the bytes themselves.
pub from_utf8-eq-ok : (s t : Bytes) → from_utf8 s ≡ ok t → t ≡ s
unfolding from_utf8
from_utf8-eq-ok s t h = ground arith
