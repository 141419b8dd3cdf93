-- ===== src/Text/Contains.antt =====
-- `contains`, `find` and `ends_with`, and where a text holds another.
use mathlib.Core.List.{append_assoc, append-nil, reverse, reverse-append, reverse-reverse}
use wifi_ctrl.Prelude.{
  All, ◌≢◌, ℕ, true, [], ◌∷◌, ◌++◌, Option, none, some, ◌==◌, ◌≡◌, ◌↔◌, inl, inr, refl, sym, ap,
  ◌∙◌, arith, Bool-cases, Option-cases,
}
use wifi_ctrl.Text.{Bytes, strip_prefix, find_after, is_some, contains, ends_with}

-- The text `s` holds `pat`.
abbrev pub Within : Bytes → Bytes → Type 0
Within pat s = (front : Bytes) × (back : Bytes) × (s ≡ front ++ (pat ++ back))

strip_prefix-append : (pat back : Bytes) → strip_prefix pat (pat ++ back) ≡ some back
unfolding strip_prefix
strip_prefix-append [] back = refl
strip_prefix-append (p ∷ pat) back = ground (arith, strip_prefix-append pat back)

strip_prefix-eq-some : (pat s back : Bytes) → strip_prefix pat s ≡ some back → s ≡ pat ++ back
unfolding strip_prefix
strip_prefix-eq-some [] s back h = cc
strip_prefix-eq-some (p ∷ pat) [] back h = cc
strip_prefix-eq-some (p ∷ pat) (x ∷ s) back h = elim (Bool-cases (p == x)) [
  | inl same ↦
      let is : p ≡ x = ground arith in
      let rest = strip_prefix-eq-some pat s back (rw same at h) in rw is (ap (◌∷◌ x) rest)
  | inr other ↦ let e = rw other at h in cc
]

find_after-strip :
    (pat s rest : Bytes) → strip_prefix pat s ≡ some rest → find_after pat s ≡ some rest
unfolding find_after
find_after-strip pat [] rest h = h
find_after-strip pat (x ∷ s) rest h = rw (find_after, h) refl

find_after-later :
    (pat s : Bytes) (x : ℕ)
    → strip_prefix pat (x ∷ s) ≡ none
    → find_after pat (x ∷ s) ≡ find_after pat s
unfolding find_after
find_after-later pat s x h = rw (find_after, h) refl

pub find_after-eq-some : (pat s back : Bytes) → find_after pat s ≡ some back → Within pat s
unfolding find_after
find_after-eq-some pat [] back h = ([], back, strip_prefix-eq-some pat [] back h)
find_after-eq-some pat (x ∷ s) back h = elim (Option-cases (strip_prefix pat (x ∷ s))) [
  | inl e ↦
      let (front, rest, q) = find_after-eq-some pat s back (sym (find_after-later pat s x e) ∙ h) in
      (x ∷ front, rest, ap (◌∷◌ x) q)
  | inr (rest, e) ↦ ([], rest, strip_prefix-eq-some pat (x ∷ s) rest e)
]

-- A text that holds the pattern is found to do so.
pub find_after-Within :
    (pat front back : Bytes)
    → (rest : Bytes) × (find_after pat (front ++ (pat ++ back)) ≡ some rest)
find_after-Within pat [] back =
    (back, find_after-strip pat (pat ++ back) back (strip_prefix-append pat back))
find_after-Within pat (x ∷ front) back =
    elim (Option-cases (strip_prefix pat (x ∷ (front ++ (pat ++ back))))) [
      | inl e ↦
          let (rest, f) = find_after-Within pat front back in
          (rest, find_after-later pat (front ++ (pat ++ back)) x e ∙ f)
      | inr (rest, e) ↦ (rest, find_after-strip pat (x ∷ (front ++ (pat ++ back))) rest e)
    ]

contains_cases : (o : Option Bytes) → is_some o ≡ true → (rest : Bytes) × (o ≡ some rest)
contains_cases none h = cc
contains_cases (some rest) h = (rest, refl)

pub contains_iff : (s pat : Bytes) → (contains s pat ≡ true) ↔ Within pat s
contains_iff s pat = (
  λ h. let (rest, e) = contains_cases (find_after pat s) h in find_after-eq-some pat s rest e,
  λ (front, back, e). let (rest, f) = find_after-Within pat front back in rw (e, f) refl,
)

pub Within-first : (first more s : Bytes) → Within (first ++ more) s → Within first s
Within-first first more s (front, back, e) =
    (front, more ++ back, e ∙ ap (λ l. front ++ l) (append_assoc first more back))

pub Within-append : (pat s back : Bytes) → Within pat s → Within pat (s ++ back)
Within-append pat s back (front, rest, e) = (
  front,
  rest ++ back,
  ap (λ l. l ++ back) e
      ∙ append_assoc front (pat ++ rest) back
      ∙ ap (λ l. front ++ l) (append_assoc pat rest back),
)

-- A text that ends with the pattern holds it.
pub ends_with-Within : (s pat : Bytes) → ends_with s pat ≡ true → Within pat s
ends_with-Within s pat h =
    let (rest, e) = contains_cases (strip_prefix (reverse pat) (reverse s)) h in
    let q = strip_prefix-eq-some (reverse pat) (reverse s) rest e in
    (
      reverse rest,
      [],
      sym (reverse-reverse s)
          ∙ ap reverse q
          ∙ reverse-append (reverse pat) rest
          ∙ ap (λ l. reverse rest ++ l) (reverse-reverse pat ∙ sym (append-nil pat)),
    )

pub find_after-none : (pat s : Bytes) → ¬ Within pat s → find_after pat s ≡ none
find_after-none pat s h = elim (Option-cases (find_after pat s)) [
  | inl e ↦ e
  | inr (back, e) ↦ absurd (h (find_after-eq-some pat s back e))
]

strip_prefix-other : (c x : ℕ) (pat s : Bytes) → x ≢ c → strip_prefix (c ∷ pat) (x ∷ s) ≡ none
unfolding strip_prefix
strip_prefix-other c x pat s ne = ground arith

-- A pattern is found behind a front that does not hold its first byte.
pub find_after-first :
    (c : ℕ) (pat front back : Bytes)
    → All (λ x. x ≢ c) front
    → find_after (c ∷ pat) (front ++ (c ∷ (pat ++ back))) ≡ some back
find_after-first c pat [] back h =
    find_after-strip (c ∷ pat) (c ∷ (pat ++ back)) back (strip_prefix-append (c ∷ pat) back)
find_after-first c pat (x ∷ front) back (ne, h) =
    find_after-later (c ∷ pat) (front ++ (c ∷ (pat ++ back))) x
      (strip_prefix-other c x pat (front ++ (c ∷ (pat ++ back))) ne)
    ∙ find_after-first c pat front back h
