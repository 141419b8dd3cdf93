-- ===== src/Sta/Bssid/Iff.antt =====
-- Which texts are BSSIDs.
use wifi_ctrl.Prelude.{
  ℕ, ◌+◌, ◌*◌, ◌/◌, ◌%◌, ◌<◌, true, List, [], ◌∷◌, ◌≡◌, ◌≢◌, ◌↔◌, refl, sym, ap, ◌∙◌, arith, ok,
  map, length, All, some, inl, inr, Bool-cases, ◌==◌,
}
use wifi_ctrl.Text.{Bytes, split, push_front}
use wifi_ctrl.Text.Hex.{
  lower_hex, hex_char, is_ascii_hexdigit, to_ascii_lowercase, IsByte, parse_hex_u8-digits,
}
use wifi_ctrl.Text.Join.{split-cons_ne, split-cons_self}
use wifi_ctrl.Text.Number.{to_hex_digit}
use wifi_ctrl.Sta.Bssid.{Bssid, IsBssid, parse_octet, parse_octets, from_str, display}
use wifi_ctrl.Sta.Bssid.Laws.{split-display, from_str_sound}

map-push_front :
    (f : ℕ → ℕ) (x : ℕ) (ls : List Bytes)
    → map (map f) (push_front x ls) ≡ push_front (f x) (map (map f) ls)
map-push_front f x [] = refl
map-push_front f x (l ∷ ls) = refl

-- Lower case makes no colon, and takes none away.
split-map :
    (s : Bytes)
    → split b':' (map to_ascii_lowercase s) ≡ map (map to_ascii_lowercase) (split b':' s)
split-map [] = unfold split in refl
split-map (x ∷ xs) = elim (Bool-cases (x == b':')) [
  | inl same ↦
      let is : x ≡ b':' = ground arith in
      rw is (
        split-cons_self b':' (map to_ascii_lowercase xs)
        ∙ ap (◌∷◌ []) (split-map xs)
        ∙ ap (map (map to_ascii_lowercase)) (sym (split-cons_self b':' xs)))
  | inr other ↦
      let isnt : x ≢ b':' = ground arith in
      let lower_isnt : to_ascii_lowercase x ≢ b':' = ground arith in
      split-cons_ne b':' (to_ascii_lowercase x) (map to_ascii_lowercase xs) lower_isnt
      ∙ ap (push_front (to_ascii_lowercase x)) (split-map xs)
      ∙ sym (map-push_front to_ascii_lowercase x (split b':' xs))
      ∙ ap (map (map to_ascii_lowercase)) (sym (split-cons_ne b':' x xs isnt))
]

lower_digit :
    (c d : ℕ)
    → to_ascii_lowercase c ≡ hex_char d
    → d < 16
    → (to_hex_digit c ≡ some d) × (is_ascii_hexdigit c ≡ true)
lower_digit c d h l = ground arith

parse_octet-lower :
    (o : Bytes) (octets : List Bytes) (x : ℕ)
    → map to_ascii_lowercase o ≡ lower_hex x
    → IsByte x
    → parse_octet (o ∷ octets) ≡ ok (x, octets)
unfolding parse_octet
parse_octet-lower [] octets x h b = cc
parse_octet-lower (p ∷ []) octets x h b = ground arith
parse_octet-lower (p ∷ q ∷ r ∷ o) octets x h b = ground arith
parse_octet-lower (p ∷ q ∷ []) octets x h b =
    let hi = lower_digit p (x / 16) (ground arith) (omega arith) in
    let lo = lower_digit q (x % 16) (ground arith) (omega arith) in
    let value : x / 16 * 16 + x % 16 ≡ x = omega arith in
    rw (hi.1, lo.1, parse_hex_u8-digits p q (x / 16) (x % 16) hi.0 lo.0, value) refl

parse_octets-lower :
    (mac : Bytes) (octets : List Bytes)
    → map (map to_ascii_lowercase) octets ≡ map lower_hex mac
    → All IsByte mac
    → parse_octets (length mac) octets ≡ ok (mac, [])
unfolding parse_octets
parse_octets-lower [] [] h b = refl
parse_octets-lower [] (o ∷ octets) h b = cc
parse_octets-lower (x ∷ mac) [] h b = cc
parse_octets-lower (x ∷ mac) (o ∷ octets) h b =
    rw
      (
        parse_octet-lower o octets x (ground arith) b.0,
        parse_octets-lower mac octets (ground arith) b.1,
      )
      refl

from_str_complete :
    (s : Bytes) (b : Bssid) → IsBssid b → display b ≡ map to_ascii_lowercase s → from_str s ≡ ok b
unfolding from_str
from_str_complete s b v e =
    let pieces : map (map to_ascii_lowercase) (split b':' s) ≡ map lower_hex b.mac =
      sym (split-map s)
      ∙ ap (split b':') (sym e)
      ∙ unfold display in split-display b.mac v.six v.bytes in
    rw (← v.six, parse_octets-lower b.mac (split b':' s) pieces v.bytes) refl

-- Parsing a text gives the BSSID `b` exactly when `b` has six bytes and the text, with its letters
-- put in lower case, is what `b` displays.
pub from_str_iff :
    (s : Bytes) (b : Bssid)
    → (from_str s ≡ ok b) ↔ (IsBssid b × (display b ≡ map to_ascii_lowercase s))
from_str_iff s b = (from_str_sound s b, λ h. from_str_complete s b h.0 h.1)
