-- ===== src/Text.antt =====
-- The methods of `str` and `[u8]` that the code calls. A text is the list of its bytes.
pub mod Utf8
pub mod Equal
pub mod Hex
pub mod Join
pub mod Contains
pub mod Trim
pub mod Number
pub mod Splits
pub mod Char
use Prim.Native.Char.{code}
use Prim.Native.String.{String}
use mathlib.Core.List.{reverse}
use mathlib.Core.Option
use wifi_ctrl.Prelude.{
  ℕ, Bool, true, false, ◌&&◌, ◌||◌, List, [], ◌∷◌, Option, none, some, ◌==◌, if◌then◌else◌,
}

abbrev pub Bytes : Type 0
Bytes = List ℕ

-- The bytes of an ASCII literal.
abbrev pub codes : String → Bytes
codes String.[] = []
codes (String.◌∷◌ c s) = code c ∷ codes s

-- `==` of two texts.
unfoldable pub bytes_eq : Bytes → Bytes → Bool
bytes_eq [] [] = true
bytes_eq (x ∷ xs) (y ∷ ys) = x == y && bytes_eq xs ys
bytes_eq _ _ = false

-- `s.strip_prefix(pat)`: what follows the pattern.
unfoldable pub strip_prefix : Bytes → Bytes → Option Bytes
strip_prefix [] s = some s
strip_prefix (p ∷ ps) [] = none
strip_prefix (p ∷ ps) (x ∷ xs) = if p == x then strip_prefix ps xs else none

abbrev pub is_some {ℓ} : {A : Type ℓ} → Option A → Bool
is_some none = false
is_some (some a) = true

-- What follows the first occurrence of the pattern: `find`, then the slice behind it.
unfoldable pub find_after : Bytes → Bytes → Option Bytes
unfolding strip_prefix
find_after pat [] = strip_prefix pat []
find_after pat (x ∷ xs) = elim (strip_prefix pat (x ∷ xs)) [
  | some rest ↦ some rest
  | none ↦ find_after pat xs
]

abbrev pub contains : Bytes → Bytes → Bool
contains s pat = is_some (find_after pat s)

abbrev pub ends_with : Bytes → Bytes → Bool
ends_with s pat = is_some (strip_prefix (reverse pat) (reverse s))

-- `s.split_once(c)` and `s.rsplit_once(c)`.
unfoldable pub split_once : ℕ → Bytes → Option (Bytes × Bytes)
split_once c [] = none
split_once c (x ∷ xs) =
    if x == c then some ([], xs) else Option.map (λ p. (x ∷ p.0, p.1)) (split_once c xs)

unfoldable pub rsplit_once : ℕ → Bytes → Option (Bytes × Bytes)
rsplit_once c [] = none
rsplit_once c (x ∷ xs) = elim (rsplit_once c xs) [
  | some (before, after) ↦ some (x ∷ before, after)
  | none ↦ if x == c then some ([], xs) else none
]

-- Put a byte in front of the first piece.
abbrev pub push_front : ℕ → List Bytes → List Bytes
push_front x [] = (x ∷ []) ∷ []
push_front x (l ∷ ls) = (x ∷ l) ∷ ls

-- `s.split(c)`.
unfoldable pub split : ℕ → Bytes → List Bytes
split c [] = [] ∷ []
split c (x ∷ xs) = if x == c then [] ∷ split c xs else push_front x (split c xs)

abbrev pub starts_line_end : Bytes → Bool
starts_line_end [] = false
starts_line_end (x ∷ xs) = x == b'\n'

-- `s.lines()`: a line ends at "\n" or "\r\n", and no empty line follows the last end.
unfoldable pub lines : Bytes → List Bytes
lines [] = []
lines (x ∷ xs) =
    let rest = lines xs in
    if x == b'\n'
    then [] ∷ rest
    else if x == b'\r' && starts_line_end xs
    then rest
    else push_front x rest

-- `iter.skip(1)`.
abbrev pub skip_one {ℓ} : {A : Type ℓ} → List A → List A
skip_one [] = []
skip_one (x ∷ xs) = xs
