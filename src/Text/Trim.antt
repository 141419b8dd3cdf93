-- ===== src/Text/Trim.antt =====
-- `trim`, `trim_end`, `split_whitespace` (by `char::is_whitespace`) and `trim_matches`.
use mathlib.Core.List.{reverse, reverse-append, reverse-reverse}
use wifi_ctrl.Prelude.{
  ℕ, zero, suc, Bool, ◌&&◌, ◌||◌, List, [], ◌∷◌, ◌++◌, leb, ◌==◌, if◌then◌else◌, ◌≡◌, refl, sym, ap,
  ◌∙◌,
}
use wifi_ctrl.Text.{Bytes, push_front}

abbrev is_space : ℕ → Bool
is_space x = x == b' ' || (leb 9 x && leb x 13)

-- U+0085 and U+00A0.
abbrev is_space_of_two : ℕ → ℕ → Bool
is_space_of_two x y = x == 0xc2 && (y == 0x85 || y == 0xa0)

-- U+1680, U+2000 to U+200A, U+2028, U+2029, U+202F, U+205F and U+3000.
abbrev is_space_of_three : ℕ → ℕ → ℕ → Bool
is_space_of_three x y z =
    (x == 0xe1 && y == 0x9a && z == 0x80)
    || (x == 0xe2
        && y == 0x80
        && ((leb 0x80 z && leb z 0x8a) || z == 0xa8 || z == 0xa9 || z == 0xaf))
    || (x == 0xe2 && y == 0x81 && z == 0x9f)
    || (x == 0xe3 && y == 0x80 && z == 0x80)

-- The bytes of the white-space character at the front; 0 if there is none.
space_width : Bytes → ℕ
space_width [] = 0
space_width (x ∷ []) = if is_space x then 1 else 0
space_width (x ∷ y ∷ []) = if is_space x then 1 else if is_space_of_two x y then 2 else 0
space_width (x ∷ y ∷ z ∷ rest) =
    if is_space x
    then 1
    else if is_space_of_two x y
    then 2
    else if is_space_of_three x y z
    then 3
    else 0

-- The same at the end of a text whose bytes are given last first.
end_space_width : Bytes → ℕ
end_space_width [] = 0
end_space_width (x ∷ []) = if is_space x then 1 else 0
end_space_width (x ∷ y ∷ []) = if is_space x then 1 else if is_space_of_two y x then 2 else 0
end_space_width (x ∷ y ∷ z ∷ rest) =
    if is_space x
    then 1
    else if is_space_of_two y x
    then 2
    else if is_space_of_three z y x
    then 3
    else 0

-- Drop characters while `width` finds one; the number counts the bytes still to drop of this one.
trim_by : (Bytes → ℕ) → ℕ → Bytes → Bytes
trim_by width k [] = []
trim_by width (suc k) (x ∷ xs) = trim_by width k xs
trim_by width zero (x ∷ xs) = elim (width (x ∷ xs)) [ zero ↦ x ∷ xs | suc k ↦ trim_by width k xs ]

unfoldable pub trim_start : Bytes → Bytes
unfolding trim_by space_width
trim_start = trim_by space_width 0

unfoldable pub trim_end : Bytes → Bytes
unfolding trim_by end_space_width
trim_end s = reverse (trim_by end_space_width 0 (reverse s))

abbrev pub trim : Bytes → Bytes
trim s = trim_end (trim_start s)

words_from : ℕ → Bytes → List Bytes
words_from k [] = [] ∷ []
words_from (suc k) (x ∷ xs) = words_from k xs
words_from zero (x ∷ xs) = elim (space_width (x ∷ xs)) [
  | zero ↦ push_front x (words_from zero xs)
  | suc k ↦ [] ∷ words_from k xs
]

abbrev drop_empty : List Bytes → List Bytes
drop_empty [] = []
drop_empty ([] ∷ ls) = drop_empty ls
drop_empty ((x ∷ xs) ∷ ls) = (x ∷ xs) ∷ drop_empty ls

unfoldable pub split_whitespace : Bytes → List Bytes
unfolding words_from space_width
split_whitespace s = drop_empty (words_from 0 s)

-- `trim_end_matches(c)`, `trim_start_matches(c)` and `trim_matches(c)` of one ASCII character.
abbrev cons_unless : ℕ → ℕ → Bytes → Bytes
cons_unless c x [] = if x == c then [] else x ∷ []
cons_unless c x (y ∷ ys) = x ∷ y ∷ ys

unfoldable pub trim_end_matches : ℕ → Bytes → Bytes
trim_end_matches c [] = []
trim_end_matches c (x ∷ xs) = cons_unless c x (trim_end_matches c xs)

unfoldable pub trim_start_matches : ℕ → Bytes → Bytes
trim_start_matches c [] = []
trim_start_matches c (x ∷ xs) = if x == c then trim_start_matches c xs else x ∷ xs

abbrev pub trim_matches : ℕ → Bytes → Bytes
trim_matches c s = trim_end_matches c (trim_start_matches c s)

-- Lemmas.

trim_by-suffix :
    (width : Bytes → ℕ) (k : ℕ) (s : Bytes) → (dropped : Bytes) × (s ≡ dropped ++ trim_by width k s)
unfolding trim_by
trim_by-suffix width k [] = ([], refl)
trim_by-suffix width (suc k) (x ∷ xs) =
    let (dropped, e) = trim_by-suffix width k xs in (x ∷ dropped, ap (◌∷◌ x) e)
trim_by-suffix width zero (x ∷ xs) = one_width (width (x ∷ xs)) (λ k. trim_by-suffix width k xs)
  where
    one_width :
        (k : ℕ)
        → ((k' : ℕ) → (dropped : Bytes) × (xs ≡ dropped ++ trim_by width k' xs))
        → (dropped : Bytes) × (x ∷ xs
            ≡ dropped ++ elim k [ zero ↦ x ∷ xs | suc k ↦ trim_by width k xs ])
    one_width zero ih = ([], refl)
    one_width (suc k) ih = let (dropped, e) = ih k in (x ∷ dropped, ap (◌∷◌ x) e)

-- `trim_end` leaves the front of the text.
pub trim_end-prefix : (s : Bytes) → (rest : Bytes) × (s ≡ trim_end s ++ rest)
unfolding trim_end
trim_end-prefix s =
    let (dropped, e) = trim_by-suffix end_space_width 0 (reverse s) in
    (
      reverse dropped,
      sym (reverse-reverse s)
          ∙ ap reverse e
          ∙ reverse-append dropped (trim_by end_space_width 0 (reverse s)),
    )
