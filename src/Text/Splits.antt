-- ===== src/Text/Splits.antt =====
-- `split_once` and `rsplit_once` of `str`, by what they split.
use wifi_ctrl.Prelude.{
  ℕ, [], ◌∷◌, ◌++◌, none, some, ◌==◌, ◌≡◌, refl, inl, inr, arith, Bool-cases, Option-cases,
}
use wifi_ctrl.Text.Join.{Lacks}
use wifi_ctrl.Text.{Bytes, split_once, rsplit_once}

pub split_once-append :
    (c : ℕ) (l s : Bytes) → Lacks c l → split_once c (l ++ (c ∷ s)) ≡ some (l, s)
unfolding split_once
split_once-append c [] s h = ground arith
split_once-append c (x ∷ l) s h = ground (arith, split_once-append c l s h.1)

pub split_once-Lacks : (c : ℕ) (s : Bytes) → Lacks c s → split_once c s ≡ none
unfolding split_once
split_once-Lacks c [] h = refl
split_once-Lacks c (x ∷ s) h = ground (arith, split_once-Lacks c s h.1)

pub split_once-eq-none : (c : ℕ) (s : Bytes) → split_once c s ≡ none → Lacks c s
unfolding split_once
split_once-eq-none c [] e = tt
split_once-eq-none c (x ∷ s) e = elim (Option-cases (split_once c s)) [
  | inl missing ↦ ground (arith, split_once-eq-none c s missing)
  | inr (p, found) ↦ ground arith
]

pub split_once-eq-some :
    (c : ℕ) (s l r : Bytes) → split_once c s ≡ some (l, r) → (s ≡ l ++ c ∷ r) × Lacks c l
unfolding split_once
split_once-eq-some c [] l r e = cc
split_once-eq-some c (x ∷ s) l r e = elim (Bool-cases (x == c)) [
  | inl same ↦ ground arith
  | inr other ↦ elim (Option-cases (split_once c s)) [
    | inl missing ↦ ground arith
    | inr (p, found) ↦ ground (arith, split_once-eq-some c s p.0 p.1 found)
  ]
]

-- The last occurrence is the last character.
pub rsplit_once-end : (c : ℕ) (s : Bytes) → rsplit_once c (s ++ c ∷ []) ≡ some (s, [])
unfolding rsplit_once
rsplit_once-end c [] = ground arith
rsplit_once-end c (x ∷ s) = rw (rsplit_once-end c s) refl

pub rsplit_once-eq-some : (c : ℕ) (s l r : Bytes) → rsplit_once c s ≡ some (l, r) → s ≡ l ++ c ∷ r
unfolding rsplit_once
rsplit_once-eq-some c [] l r e = cc
rsplit_once-eq-some c (x ∷ s) l r e = elim (Option-cases (rsplit_once c s)) [
  | inl missing ↦ ground arith
  | inr (p, found) ↦ ground (arith, rsplit_once-eq-some c s p.0 p.1 found)
]
