-- ===== src/Text/Join.antt =====
-- Splitting at a character, and joining again.
use wifi_ctrl.Prelude.{
  ℕ, List, [], ◌∷◌, ◌++◌, ◌≡◌, ◌≢◌, refl, ap, ◌∙◌, arith, All, ◌==◌, Bool-cases, inl, inr, map,
}
use mathlib.Core.List.{map-append}
use wifi_ctrl.Text.{Bytes, split, push_front}

unfoldable pub join : ℕ → List Bytes → Bytes
join c [] = []
join c (l ∷ []) = l
join c (l ∷ m ∷ ls) = l ++ (c ∷ join c (m ∷ ls))

join-push_front : (c x : ℕ) (ls : List Bytes) → ls ≢ [] → join c (push_front x ls) ≡ x ∷ join c ls
unfolding join
join-push_front c x [] h = absurd (h refl)
join-push_front c x (l ∷ []) h = refl
join-push_front c x (l ∷ m ∷ ls) h = refl

join-cons_nil : (c : ℕ) (ls : List Bytes) → ls ≢ [] → join c ([] ∷ ls) ≡ c ∷ join c ls
unfolding join
join-cons_nil c [] h = absurd (h refl)
join-cons_nil c (l ∷ ls) h = refl

pub split-cons_ne : (c x : ℕ) (xs : Bytes) → x ≢ c → split c (x ∷ xs) ≡ push_front x (split c xs)
unfolding split
split-cons_ne c x xs h = ground arith

pub split-cons_self : (c : ℕ) (xs : Bytes) → split c (c ∷ xs) ≡ [] ∷ split c xs
unfolding split
split-cons_self c xs = ground arith

push_front-ne-nil : (x : ℕ) (ls : List Bytes) → push_front x ls ≢ []
push_front-ne-nil x [] h = cc
push_front-ne-nil x (l ∷ ls) h = cc

split-ne-nil : (c : ℕ) (s : Bytes) → split c s ≢ []
unfolding split
split-ne-nil c [] = λ h. cc
split-ne-nil c (x ∷ xs) = elim (Bool-cases (x == c)) [
  | inl same ↦ rw same (λ h. cc)
  | inr other ↦ rw other (push_front-ne-nil x (split c xs))
]

pub join-split : (c : ℕ) (s : Bytes) → join c (split c s) ≡ s
unfolding split join
join-split c [] = refl
join-split c (x ∷ xs) = elim (Bool-cases (x == c)) [
  | inl same ↦
      let is : c ≡ x = ground arith in
      rw same (
        join-cons_nil c (split c xs) (split-ne-nil c xs)
        ∙ ap (◌∷◌ c) (join-split c xs)
        ∙ ap (λ k. k ∷ xs) is)
  | inr other ↦
      rw other (join-push_front c x (split c xs) (split-ne-nil c xs) ∙ ap (◌∷◌ x) (join-split c xs))
]

-- No `c` in the piece.
abbrev pub Lacks : ℕ → Bytes → Type 0
Lacks c = All (λ x. x ≢ c)

split-append : (c : ℕ) (l s : Bytes) → Lacks c l → split c (l ++ (c ∷ s)) ≡ l ∷ split c s
split-append c [] s h = split-cons_self c s
split-append c (x ∷ l) s h =
    split-cons_ne c x (l ++ (c ∷ s)) h.0 ∙ ap (push_front x) (split-append c l s h.1)

split-Lacks : (c : ℕ) (l : Bytes) → Lacks c l → split c l ≡ l ∷ []
split-Lacks c [] h = unfold split in refl
split-Lacks c (x ∷ l) h = split-cons_ne c x l h.0 ∙ ap (push_front x) (split-Lacks c l h.1)

pub split-join :
    (c : ℕ) (l : Bytes) (ls : List Bytes)
    → Lacks c l
    → All (Lacks c) ls
    → split c (join c (l ∷ ls)) ≡ l ∷ ls
unfolding join
split-join c l [] h a = split-Lacks c l h
split-join c l (m ∷ ls) h a =
    split-append c l (join c (m ∷ ls)) h ∙ ap (◌∷◌ l) (split-join c m ls a.0 a.1)

pub map-join :
    (f : ℕ → ℕ) (c : ℕ) (ls : List Bytes) → f c ≡ c → map f (join c ls) ≡ join c (map (map f) ls)
unfolding join
map-join f c [] h = refl
map-join f c (l ∷ []) h = refl
map-join f c (l ∷ m ∷ ls) h = map-append f l (c ∷ join c (m ∷ ls)) ∙ rw (h, map-join f c (m ∷ ls) h)
