-- ===== src/Sta/Bssid/Laws.antt =====
-- `Bssid` of src/sta/types.rs: what it displays, and what parsing takes.
use wifi_ctrl.Prelude.{
  ℕ, zero, suc, ◌+◌, ◌*◌, ◌/◌, ◌%◌, ◌<◌, true, List, [], ◌∷◌, ◌++◌, ◌≡◌, ◌&&◌, refl, sym, ap, ◌∙◌,
  arith, ok, >>=-eq-ok, ◌>>=◌, map, length, All, ap, Bool-cases, inl, inr,
}
use mathlib.Core.List.{append-nil}
use wifi_ctrl.Text.{Bytes, split}
use wifi_ctrl.Text.Hex.{
  lower_hex, hex_char, is_ascii_hexdigit, to_ascii_lowercase, IsByte, hex_char_lem,
  hex_char-to_hex_digit, parse_hex_u8-digits,
}
use wifi_ctrl.Text.Join.{join, join-split, split-join, map-join, Lacks}
use wifi_ctrl.Sta.Bssid.{Bssid, IsBssid, parse_octet, parse_octets, no_more, from_str, display}

parse_octet-lower_hex :
    (x : ℕ) (octets : List Bytes) → IsByte x → parse_octet (lower_hex x ∷ octets) ≡ ok (x, octets)
unfolding parse_octet
parse_octet-lower_hex x octets h =
    let hi = hex_char_lem (x / 16) (omega arith) in
    let lo = hex_char_lem (x % 16) (omega arith) in
    let value : x / 16 * 16 + x % 16 ≡ x = omega arith in
    rw (hi.1, lo.1, parse_hex_u8-digits _ _ (x / 16) (x % 16) hi.0 lo.0, value) refl

parse_octets-lower_hex :
    (mac : Bytes) → All IsByte mac → parse_octets (length mac) (map lower_hex mac) ≡ ok (mac, [])
unfolding parse_octets
parse_octets-lower_hex [] h = refl
parse_octets-lower_hex (x ∷ mac) h =
    rw (parse_octet-lower_hex x (map lower_hex mac) h.0, parse_octets-lower_hex mac h.1) refl

lower_hex-Lacks : (mac : Bytes) → All IsByte mac → All (Lacks b':') (map lower_hex mac)
lower_hex-Lacks [] h = tt
lower_hex-Lacks (x ∷ mac) h = (
  ((hex_char_lem (x / 16) (omega arith)).2, ((hex_char_lem (x % 16) (omega arith)).2, tt)),
  lower_hex-Lacks mac h.1,
)

pub split-display :
    (mac : Bytes)
    → length mac ≡ 6
    → All IsByte mac
    → split b':' (join b':' (map lower_hex mac)) ≡ map lower_hex mac
split-display [] l h = absurd (omega arith)
split-display (x ∷ mac) l h =
    split-join b':' (lower_hex x) (map lower_hex mac) (lower_hex-Lacks (x ∷ mac) h).0
      (lower_hex-Lacks mac h.1)

-- What is displayed is read back.
pub from_str-display : (b : Bssid) → IsBssid b → from_str (display b) ≡ ok b
unfolding from_str display
from_str-display b v =
    rw (split-display b.mac v.six v.bytes, ← v.six, parse_octets-lower_hex b.mac v.bytes) refl

lower_hex-of_digits :
    (h l a b : ℕ)
    → hex_char a ≡ to_ascii_lowercase h
    → hex_char b ≡ to_ascii_lowercase l
    → a < 16
    → b < 16
    → lower_hex (a * 16 + b) ≡ map to_ascii_lowercase (h ∷ l ∷ [])
lower_hex-of_digits h l a b p q la lb =
    let hi : (a * 16 + b) / 16 ≡ a = omega arith in
    let lo : (a * 16 + b) % 16 ≡ b = omega arith in rw (hi, lo, p, q) refl

parse_octet-digits :
    (h l : ℕ) (octets : List Bytes)
    → is_ascii_hexdigit h ≡ true
    → is_ascii_hexdigit l ≡ true
    → (x : ℕ) × (parse_octet ((h ∷ l ∷ []) ∷ octets) ≡ ok (x, octets))
      × IsByte x
      × (lower_hex x ≡ map to_ascii_lowercase (h ∷ l ∷ []))
unfolding parse_octet
parse_octet-digits h l octets p q =
    let (a, va, la, ca) = hex_char-to_hex_digit h p in
    let (b, vb, lb, cb) = hex_char-to_hex_digit l q in
    (
      a * 16 + b,
      rw (p, q, parse_hex_u8-digits h l a b va vb) refl,
      omega arith,
      lower_hex-of_digits h l a b ca cb la lb,
    )

parse_octet_sound :
    (octet : Bytes) (octets rest : List Bytes) (x : ℕ)
    → parse_octet (octet ∷ octets) ≡ ok (x, rest)
    → (rest ≡ octets) × IsByte x × (lower_hex x ≡ map to_ascii_lowercase octet)
unfolding parse_octet
parse_octet_sound [] octets rest x e = cc
parse_octet_sound (h ∷ []) octets rest x e = cc
parse_octet_sound (h ∷ l ∷ []) octets rest x e =
    elim (Bool-cases (is_ascii_hexdigit h && is_ascii_hexdigit l)) [
      | inl digits ↦
          let (y, read, small, shown) =
            parse_octet-digits h l octets (ground arith) (ground arith) in
          let same : (y ≡ x) × (octets ≡ rest) = unfold parse_octet in ground (arith, read, e) in
          (sym same.1, rw (← same.0) small, rw (← same.0) shown)
      | inr other ↦ ground arith
    ]
parse_octet_sound (h ∷ l ∷ m ∷ more) octets rest x e = ground arith

parse_octets_sound :
    (n : ℕ) (octets rest : List Bytes) (mac : Bytes)
    → parse_octets n octets ≡ ok (mac, rest)
    → (used : List Bytes) × (octets ≡ used ++ rest)
      × (length mac ≡ n)
      × All IsByte mac
      × (map lower_hex mac ≡ map (map to_ascii_lowercase) used)
unfolding parse_octets
parse_octets_sound zero octets rest mac e =
    ([], ground arith, ground arith, ground arith, ground arith)
parse_octets_sound (suc n) [] rest mac e = unfold parse_octet in cc
parse_octets_sound (suc n) (o ∷ octets) rest mac e =
    let (next, p, q) =
      >>=-eq-ok (parse_octet (o ∷ octets))
        (λ next. parse_octets n next.1 >>= λ tail. ok (next.0 ∷ tail.0, tail.1)) e in
    let (tail, p', q') =
      >>=-eq-ok (parse_octets n next.1) (λ tail. ok (next.0 ∷ tail.0, tail.1)) q in
    let same : (next.0 ∷ tail.0 ≡ mac) × (tail.1 ≡ rest) = ground (arith, q') in
    let (os, small, shown) = parse_octet_sound o octets next.1 next.0 p in
    let (used, split_is, len, bytes, all_shown) =
      parse_octets_sound n octets tail.1 tail.0 (ap (parse_octets n) (sym os) ∙ p') in
    (
      o ∷ used,
      ap (◌∷◌ o) (split_is ∙ ap (λ r. used ++ r) same.1),
      rw (← same.0) (ap suc len),
      rw (← same.0) (small, bytes),
      ap (map lower_hex) (sym same.0)
          ∙ ap (λ y. y ∷ map lower_hex tail.0) shown
          ∙ ap (◌∷◌ (map to_ascii_lowercase o)) all_shown,
    )

pub from_str_sound :
    (s : Bytes) (b : Bssid) → from_str s ≡ ok b → IsBssid b × (display b ≡ map to_ascii_lowercase s)
unfolding from_str display
from_str_sound s b e =
    let (read, p, q) = >>=-eq-ok (parse_octets 6 (split b':' s)) no_more e in
    let (rest_is, mac_is) = no_more_sound read b q in
    let (used, split_is, len, bytes, shown) = parse_octets_sound 6 (split b':' s) read.1 read.0 p in
    let whole : split b':' s ≡ used = split_is ∙ ap (λ r. used ++ r) rest_is ∙ append-nil used in
    (
      record { six = rw (← mac_is) len; bytes = rw (← mac_is) bytes },
      ap (λ m. join b':' (map lower_hex m)) (sym mac_is)
          ∙ ap (join b':') (shown ∙ ap (map (map to_ascii_lowercase)) (sym whole))
          ∙ sym (map-join to_ascii_lowercase b':' (split b':' s) refl)
          ∙ ap (map to_ascii_lowercase) (join-split b':' s),
    )
  where
    no_more_sound :
        (read : Bytes × List Bytes) (b : Bssid)
        → no_more read ≡ ok b
        → (read.1 ≡ []) × (read.0 ≡ b.mac)
    no_more_sound (mac, []) b e = ground arith
    no_more_sound (mac, o ∷ octets) b e = cc
