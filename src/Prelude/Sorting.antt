-- ===== src/Prelude/Sorting.antt =====
-- `sort_by_key` of a slice, which is stable.
use Prim.Native.Nat.{suc}
use mathlib.Core.Bool.{Bool, true, false}
use mathlib.Core.List.{List, [], ◌∷◌, Perm}
use mathlib.Core.List.Perm
use mathlib.Core.Logic.{inl, inr}
use mathlib.Core.Path.{◌≡◌, refl, ap, ◌∙◌}
use wifi_ctrl.Prelude.Lists.{All, length}
use wifi_ctrl.Prelude.Tests.{if◌then◌else◌, Bool-cases}

module _ {A : Type 0} (le : A → A → Bool) where
  -- An entry goes in front of the first that is not smaller.
  unfoldable pub insert_by : A → List A → List A
  insert_by r [] = r ∷ []
  insert_by r (x ∷ xs) = let rest = insert_by r xs in if le r x then r ∷ x ∷ xs else x ∷ rest

  unfoldable pub sort_by : List A → List A
  sort_by [] = []
  sort_by (r ∷ rs) = insert_by r (sort_by rs)

  insert_by-perm : (r : A) (xs : List A) → Perm (insert_by r xs) (r ∷ xs)
  unfolding insert_by
  insert_by-perm r [] = Perm.refl (r ∷ [])
  insert_by-perm r (x ∷ xs) = elim (Bool-cases (le r x)) [
    | inl before ↦ rw before (Perm.refl (r ∷ x ∷ xs))
    | inr behind ↦ rw behind (Perm.trans (Perm.cons x (insert_by-perm r xs)) (Perm.swap r x xs))
  ]

  pub sort_by-perm : (rs : List A) → Perm (sort_by rs) rs
  unfolding sort_by
  sort_by-perm [] = Perm.refl []
  sort_by-perm (r ∷ rs) = Perm.trans (insert_by-perm r (sort_by rs)) (Perm.cons r (sort_by-perm rs))

  length-insert_by : (r : A) (xs : List A) → length (insert_by r xs) ≡ suc (length xs)
  unfolding insert_by
  length-insert_by r [] = refl
  length-insert_by r (x ∷ xs) = elim (Bool-cases (le r x)) [
    | inl before ↦ rw before refl
    | inr behind ↦ rw behind (ap suc (length-insert_by r xs))
  ]

  pub length-sort_by : (rs : List A) → length (sort_by rs) ≡ length rs
  unfolding sort_by
  length-sort_by [] = refl
  length-sort_by (r ∷ rs) = length-insert_by r (sort_by rs) ∙ ap suc (length-sort_by rs)

-- The entries that a test picks, in their order.
abbrev pub picked : {A : Type 0} → (A → Bool) → List A → List A
picked p [] = []
picked p (x ∷ xs) = if p x then x ∷ picked p xs else picked p xs

-- Every entry is related to those behind it.
abbrev pub IsSorted : {A : Type 0} → (A → A → Type 0) → List A → Type 0
IsSorted R [] = Unit {0}
IsSorted R (x ∷ xs) = All (R x) xs × IsSorted R xs

-- An order, and the test that decides it.
pub record IsOrder {A : Type 0} (le : A → A → Bool) (R : A → A → Type 0) : Type 0 where
  pub le_true : (a b : A) → le a b ≡ true → R a b
  pub le_false : (a b : A) → le a b ≡ false → R b a
  pub trans : (a b c : A) → R a b → R b c → R a c

module _ {A : Type 0} (le : A → A → Bool) (R : A → A → Type 0) (o : IsOrder le R) where
  All-smaller : (x y : A) (xs : List A) → R x y → All (R y) xs → All (R x) xs
  All-smaller x y [] h a = tt
  All-smaller x y (z ∷ xs) h a = (o.trans x y z h a.0, All-smaller x y xs h a.1)

  insert_by-All : (x r : A) (xs : List A) → R x r → All (R x) xs → All (R x) (insert_by le r xs)
  unfolding insert_by
  insert_by-All x r [] h a = (h, tt)
  insert_by-All x r (y ∷ ys) h a = elim (Bool-cases (le r y)) [
    | inl before ↦ rw before (h, a)
    | inr behind ↦ rw behind (a.0, insert_by-All x r ys h a.1)
  ]

  insert_by-IsSorted : (r : A) (xs : List A) → IsSorted R xs → IsSorted R (insert_by le r xs)
  unfolding insert_by
  insert_by-IsSorted r [] s = (tt, tt)
  insert_by-IsSorted r (x ∷ xs) s = elim (Bool-cases (le r x)) [
    | inl before ↦ let h = o.le_true r x before in rw before ((h, All-smaller r x xs h s.0), s)
    | inr behind ↦
        rw behind (insert_by-All x r xs (o.le_false r x behind) s.0, insert_by-IsSorted r xs s.1)
  ]

  pub sort_by-IsSorted : (rs : List A) → IsSorted R (sort_by le rs)
  unfolding sort_by
  sort_by-IsSorted [] = tt
  sort_by-IsSorted (r ∷ rs) = insert_by-IsSorted r (sort_by le rs) (sort_by-IsSorted rs)

module _ {A : Type 0} (le : A → A → Bool) (p : A → Bool)
    (same : (a b : A) → p a ≡ true → p b ≡ true → le a b ≡ true) where
  insert_by-picked : (r : A) (xs : List A) → picked p (insert_by le r xs) ≡ picked p (r ∷ xs)
  unfolding insert_by
  insert_by-picked r [] = refl
  insert_by-picked r (x ∷ xs) =
      let rest = insert_by-picked r xs in
      elim (Bool-cases (le r x)) [
        | inl before ↦ rw before refl
        | inr behind ↦ elim (Bool-cases (p x)) [
          | inl px ↦ elim (Bool-cases (p r)) [
            | inl pr ↦ let before = same r x pr px in absurd cc
            | inr pr ↦ let rest' = rw pr at rest in rw (behind, px, pr) (ap (λ l. x ∷ l) rest')
          ]
          | inr px ↦ rw (behind, px) rest
        ]
      ]

  -- Entries that the order does not tell apart stay in their order.
  pub sort_by-picked : (rs : List A) → picked p (sort_by le rs) ≡ picked p rs
  unfolding sort_by
  sort_by-picked [] = refl
  sort_by-picked (r ∷ rs) =
      let rest = sort_by-picked rs in
      insert_by-picked r (sort_by le rs) ∙ ap (λ l. if p r then r ∷ l else l) rest
