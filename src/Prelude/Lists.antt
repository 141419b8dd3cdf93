-- ===== src/Prelude/Lists.antt =====
-- Lists measured by native numbers, under the library's names, and predicates on their elements.
use Prim.Native.Nat.{ℕ, zero, suc, ◌+◌, ◌≤◌}
use mathlib.Core.Path.{◌≡◌, refl, ap}
use mathlib.Core.Bool.{Bool, true, ◌&&◌}
use mathlib.Core.List.{List, [], ◌∷◌, ◌++◌}
use mathlib.Core.Logic.{◌⊎◌, inl, inr}
use mathlib.Core.Option.{Option, none, some}
use native.Mathlib.Omega.{arith}
use wifi_ctrl.Prelude.Tests.{◌==◌, if◌then◌else◌}

module _ {ℓ} {A : Type ℓ} where
  abbrev pub length : List A → ℕ
  length [] = 0
  length (x ∷ xs) = suc (length xs)

  abbrev pub take : ℕ → List A → List A
  take zero xs = []
  take (suc n) [] = []
  take (suc n) (x ∷ xs) = x ∷ take n xs

  abbrev pub drop : ℕ → List A → List A
  drop zero xs = xs
  drop (suc n) [] = []
  drop (suc n) (x ∷ xs) = drop n xs

  -- `all` of an iterator, and the same as a type.
  abbrev pub all : (A → Bool) → List A → Bool
  all p [] = true
  all p (x ∷ xs) = p x && all p xs

  abbrev pub All {κ} : (A → Type κ) → List A → Type κ
  All P [] = Unit
  All P (x ∷ xs) = P x × All P xs

  pub length-append : (xs ys : List A) → length (xs ++ ys) ≡ length xs + length ys
  length-append [] ys = omega arith
  length-append (x ∷ xs) ys = omega (arith, length-append xs ys)

  pub All-append {κ} :
      (Q : A → Type κ) (front back : List A) → All Q front → All Q back → All Q (front ++ back)
  All-append Q [] back front_all back_all = back_all
  All-append Q (a ∷ front) back (head, tail) back_all =
      (head, All-append Q front back tail back_all)

pub List-cases {ℓ} : {A : Type ℓ} (l : List A) → (l ≡ []) ⊎ ((x : A) × (xs : List A) × (l ≡ x ∷ xs))
List-cases [] = inl refl
List-cases (x ∷ xs) = inr (x, xs, refl)

-- How often a number stands in a list.
abbrev pub count : ℕ → List ℕ → ℕ
count a [] = 0
count a (x ∷ xs) = (if x == a then 1 else 0) + count a xs

pub count-append :
    (n : ℕ) (front back : List ℕ) → count n (front ++ back) ≡ count n front + count n back
count-append n [] back = omega arith
count-append n (m ∷ front) back = let rest = count-append n front back in omega arith

-- The last value that `f` gives in the list, or `a`.
abbrev pub last_some {ℓ ℓ'} : {A : Type ℓ} {B : Type ℓ'} → (A → Option B) → B → List A → B
last_some f a [] = a
last_some f a (x ∷ xs) = last_some f (elim (f x) [ some b ↦ b | none ↦ a ]) xs

-- A list that is short enough is taken whole.
pub take-length : {A : Type 0} (n : ℕ) (s : List A) → length s ≤ n → take n s ≡ s
take-length zero [] h = refl
take-length zero (x ∷ s) h = absurd (omega arith)
take-length (suc n) [] h = refl
take-length (suc n) (x ∷ s) h = ap (◌∷◌ x) (take-length n s (omega arith))

-- Put one by one in front.
abbrev pub onto {ℓ} : {X : Type ℓ} → List X → List X → List X
onto [] log = log
onto (c ∷ cs) log = onto cs (c ∷ log)

pub onto-append : {X : Type 0} (cs ds log : List X) → onto (cs ++ ds) log ≡ onto ds (onto cs log)
onto-append [] ds log = refl
onto-append (c ∷ cs) ds log = onto-append cs ds (c ∷ log)

pub count-onto : (c : ℕ) (q log : List ℕ) → count c (onto q log) ≡ count c q + count c log
count-onto c [] log = omega arith
count-onto c (x ∷ q) log = let rest = count-onto c q (x ∷ log) in omega arith
