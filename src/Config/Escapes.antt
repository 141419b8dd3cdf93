-- ===== src/Config/Escapes.antt =====
-- The escapes that `unprintf` of src/config.rs undoes, as a relation between an escaped text and its
-- bytes.
use mathlib.Core.List.{append-nil, append_assoc}
use wifi_ctrl.Prelude.{
  ℕ, [], ◌∷◌, ◌++◌, ◌==◌, ◌≡◌, ◌≢◌, ◌↔◌, map_err, map_err-eq-ok, inl, inr, refl, sym, ap, ◌∙◌, ◌⊎◌,
  All, arith, ok, Bool-cases, >>=-eq-ok,
}
use wifi_ctrl.Text.{Bytes, codes}
use wifi_ctrl.Config.HexEscape.{HexPair, hex_escape_iff}
use wifi_ctrl.Text.Utf8.{IsUtf8, from_utf8, from_utf8-eq-ok}
use wifi_ctrl.Errors.{non_utf8_escape}
use wifi_ctrl.Config.Unprintf.{
  plain_escape, hex_escape, unescape, unescape_code, unescape_hex, unprintf,
}

-- `Escapes e s`: the escaped text `e` stands for the bytes `s`, character by character.
pub data Escapes : Bytes → Bytes → Type 0 where
  done : Escapes [] []
  plain : {c : ℕ} {e s : Bytes} → c ≢ b'\\' → Escapes e s → Escapes (c ∷ e) (c ∷ s)
  newline : {e s : Bytes} → Escapes e s → Escapes (b'\\' ∷ b'n' ∷ e) (0x0a ∷ s)
  carriage : {e s : Bytes} → Escapes e s → Escapes (b'\\' ∷ b'r' ∷ e) (0x0d ∷ s)
  tab : {e s : Bytes} → Escapes e s → Escapes (b'\\' ∷ b't' ∷ e) (0x09 ∷ s)
  escape : {e s : Bytes} → Escapes e s → Escapes (b'\\' ∷ b'e' ∷ e) (0x1b ∷ s)
  -- Any other character but `x` stands for itself, as a quote or a backslash does.
  itself :
      {c : ℕ} {e s : Bytes}
      → All (λ d. c ≢ d) (codes "nrtex")
      → Escapes e s
      → Escapes (b'\\' ∷ c ∷ e) (c ∷ s)
  hex :
      {h l k : ℕ} {e s : Bytes}
      → HexPair h l k
      → Escapes e s
      → Escapes (b'\\' ∷ b'x' ∷ h ∷ l ∷ e) (k ∷ s)

unescape-plain :
    (out e : Bytes) (c : ℕ) → c ≢ b'\\' → unescape out (c ∷ e) ≡ unescape (out ++ c ∷ []) e
unfolding unescape
unescape-plain out e c h = elim (Bool-cases (c == b'\\')) [
  | inl same ↦ absurd (h (ground arith))
  | inr other ↦ rw (other, unescape) refl
]

unescape_code-letter :
    (out e : Bytes) (c : ℕ)
    → c ≢ b'x'
    → unescape_code out (c ∷ e) ≡ unescape (out ++ plain_escape c ∷ []) e
unfolding unescape_code
unescape_code-letter out e c h = elim (Bool-cases (c == b'x')) [
  | inl same ↦ absurd (h (ground arith))
  | inr other ↦ rw (other, unescape_code) refl
]

plain_escape-itself : (c : ℕ) → All (λ d. c ≢ d) (codes "nrtex") → plain_escape c ≡ c
unfolding plain_escape
plain_escape-itself c h = ground arith

-- A letter that stands for the byte `k`.
unescape-letter :
    (out e s : Bytes) (c k : ℕ)
    → c ≢ b'x'
    → plain_escape c ≡ k
    → unescape (out ++ k ∷ []) e ≡ ok ((out ++ k ∷ []) ++ s)
    → unescape_code out (c ∷ e) ≡ ok (out ++ k ∷ s)
unescape-letter out e s c k h p t =
    unescape_code-letter out e c h ∙ rw p (t ∙ ap ok (append_assoc out (k ∷ []) s))

unescape-Escapes : {e s : Bytes} (out : Bytes) → Escapes e s → unescape out e ≡ ok (out ++ s)
unfolding unescape unescape_code unescape_hex plain_escape
unescape-Escapes out done = ap ok (sym (append-nil out))
unescape-Escapes out (plain {c} {e} {s} h t) =
    unescape-plain out e c h
    ∙ unescape-Escapes (out ++ c ∷ []) t
    ∙ ap ok (append_assoc out (c ∷ []) s)
unescape-Escapes out (newline {e} {s} t) =
    unescape-letter out e s b'n' 0x0a (omega arith) refl (unescape-Escapes (out ++ 0x0a ∷ []) t)
unescape-Escapes out (carriage {e} {s} t) =
    unescape-letter out e s b'r' 0x0d (omega arith) refl (unescape-Escapes (out ++ 0x0d ∷ []) t)
unescape-Escapes out (tab {e} {s} t) =
    unescape-letter out e s b't' 0x09 (omega arith) refl (unescape-Escapes (out ++ 0x09 ∷ []) t)
unescape-Escapes out (escape {e} {s} t) =
    unescape-letter out e s b'e' 0x1b (omega arith) refl (unescape-Escapes (out ++ 0x1b ∷ []) t)
unescape-Escapes out (itself {c} {e} {s} h t) =
    unescape-letter out e s c c (ground arith) (plain_escape-itself c h)
      (unescape-Escapes (out ++ c ∷ []) t)
unescape-Escapes out (hex {h} {l} {k} {e} {s} p t) =
    rw ((hex_escape_iff h l k).1 p, unescape)
      (unescape-Escapes (out ++ k ∷ []) t ∙ ap ok (append_assoc out (k ∷ []) s))

letter-cases :
    (c : ℕ)
    → (c ≡ b'n')
      ⊎ (c ≡ b'r')
      ⊎ (c ≡ b't')
      ⊎ (c ≡ b'e')
      ⊎ ((c ≢ b'n') × (c ≢ b'r') × (c ≢ b't') × (c ≢ b'e'))
letter-cases c = omega arith

-- A letter other than `x`, behind a backslash.
Escapes-letter :
    (c : ℕ) (e s : Bytes) → c ≢ b'x' → Escapes e s → Escapes (b'\\' ∷ c ∷ e) (plain_escape c ∷ s)
unfolding plain_escape
Escapes-letter c e s h t = elim (letter-cases c) [
  | inl n ↦ rw n (newline t)
  | inr (inl r) ↦ rw r (carriage t)
  | inr (inr (inl a)) ↦ rw a (tab t)
  | inr (inr (inr (inl b))) ↦ rw b (escape t)
  | inr (inr (inr (inr (n, r, a, b)))) ↦
      let other : All (λ d. c ≢ d) (codes "nrtex") = (n, (r, (a, (b, (h, tt))))) in
      rw (plain_escape-itself c other) (itself other t)
]

-- What the loop adds to `out` when it ends well.
abbrev Read : Bytes → Bytes → Bytes → Type 0
Read out e r = (s : Bytes) × Escapes e s × (r ≡ out ++ s)

Read-cons :
    (out e e' r : Bytes) (k : ℕ)
    → ((s : Bytes) → Escapes e s → Escapes e' (k ∷ s))
    → Read (out ++ k ∷ []) e r
    → Read out e' r
Read-cons out e e' r k put (s, t, q) = (k ∷ s, put s t, q ∙ append_assoc out (k ∷ []) s)

mutual
  unfolding unescape unescape_code unescape_hex

  unescape-Read : (e out r : Bytes) → unescape out e ≡ ok r → Read out e r
  unescape-Read [] out r h = ([], done, ground (arith, append-nil out))
  unescape-Read (c ∷ e) out r h = elim (Bool-cases (c == b'\\')) [
    | inl same ↦
        let is : c ≡ b'\\' = ground arith in
        rw is (unescape_code-Read e out r (ap (λ k. unescape out (k ∷ e)) (sym is) ∙ h))
    | inr other ↦
        let isnt : c ≢ b'\\' = ground arith in
        Read-cons out e (c ∷ e) r c (λ s t. plain isnt t)
          (unescape-Read e (out ++ c ∷ []) r (sym (unescape-plain out e c isnt) ∙ h))
  ]

  unescape_code-Read : (e out r : Bytes) → unescape_code out e ≡ ok r → Read out (b'\\' ∷ e) r
  unescape_code-Read [] out r h = cc
  unescape_code-Read (c ∷ e) out r h = elim (Bool-cases (c == b'x')) [
    | inl same ↦
        let is : c ≡ b'x' = ground arith in
        rw is (unescape_hex-Read e out r (ap (λ k. unescape_code out (k ∷ e)) (sym is) ∙ h))
    | inr other ↦
        let isnt : c ≢ b'x' = ground arith in
        Read-cons out e (b'\\' ∷ c ∷ e) r (plain_escape c) (λ s t. Escapes-letter c e s isnt t)
          (unescape-Read e (out ++ plain_escape c ∷ []) r
            (sym (unescape_code-letter out e c isnt) ∙ h))
  ]

  unescape_hex-Read : (e out r : Bytes) → unescape_hex out e ≡ ok r → Read out (b'\\' ∷ b'x' ∷ e) r
  unescape_hex-Read [] out r h = cc
  unescape_hex-Read (g ∷ []) out r h = cc
  unescape_hex-Read (g ∷ l ∷ e) out r h =
      let (k, p, q) = >>=-eq-ok (hex_escape g l) (λ c. unescape (out ++ c ∷ []) e) h in
      Read-cons out e (b'\\' ∷ b'x' ∷ g ∷ l ∷ e) r k (λ s t. hex ((hex_escape_iff g l k).0 p) t)
        (unescape-Read e (out ++ k ∷ []) r q)

unprintf_sound : (e s : Bytes) → unprintf e ≡ ok s → Escapes e s × IsUtf8 s
unfolding unprintf
unprintf_sound e s h =
    let (u, p, q) =
      >>=-eq-ok (unescape [] e) (λ u. map_err (λ _. non_utf8_escape) (from_utf8 u)) h in
    let valid = map_err-eq-ok (from_utf8 u) (λ _. non_utf8_escape) q in
    let (s', t, r) = unescape-Read e [] u p in
    let same = from_utf8-eq-ok u s valid in (rw (same ∙ r) t, rw (← same) at valid)

unprintf_complete : (e s : Bytes) → Escapes e s → IsUtf8 s → unprintf e ≡ ok s
unfolding unprintf
unprintf_complete e s t u = rw (unescape-Escapes [] t, u)

-- `unprintf` returns `s` exactly when `s` is UTF-8 and the escaped text stands for it: a backslash with
-- `n`, `r`, `t` or `e` for the byte 10, 13, 9 or 27, with `x` and two hexadecimal digits (or a plus sign
-- and one digit) for their value, with any other character for that, and what is not escaped for itself.
pub unprintf-Escapes : (e s : Bytes) → (unprintf e ≡ ok s) ↔ (Escapes e s × IsUtf8 s)
unprintf-Escapes e s = (unprintf_sound e s, λ p. unprintf_complete e s p.0 p.1)
