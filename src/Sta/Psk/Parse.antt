-- ===== src/Sta/Psk/Parse.antt =====
-- `Psk` of src/sta/types.rs: which texts are keys.
use wifi_ctrl.Prelude.{
  true, ◌&&◌, some, ◌==◌, leb, ok, err, length, all, ◌≡◌, ◌⊎◌, inl, inr, refl, arith, Bool-cases,
}
use wifi_ctrl.Text.{Bytes}
use wifi_ctrl.Text.Hex.{Hex, IsHex, is_ascii_hexdigit}
use wifi_ctrl.Errors.{invalid_psk}
use wifi_ctrl.Sta.Psk.{passphrase, raw, is_quotable, new_passphrase, IsPsk, from_str}

-- A text of 64 hexadecimal digits.
abbrev pub IsRawText : Bytes → Type 0
IsRawText s = (length s ≡ 64) × (all is_ascii_hexdigit s ≡ true)

new_passphrase-IsPsk :
    (s : Bytes)
    → (IsPsk (passphrase s) × (new_passphrase s ≡ ok (passphrase s)))
      ⊎ ((¬ IsPsk (passphrase s)) × (new_passphrase s ≡ err invalid_psk))
unfolding new_passphrase
new_passphrase-IsPsk s =
    elim (Bool-cases (all is_quotable s && leb 8 (length s) && leb (length s) 63)) [
      | inl valid ↦ inl (ground arith, ground arith)
      | inr invalid ↦ inr (λ v. ground arith, ground arith)
    ]

-- What parsing a text gives: a text of 64 hexadecimal digits is the raw key of 32 bytes that it spells;
-- any other is a passphrase if it has 8 to 63 printable characters and no quote, and `InvalidPsk` if
-- not. No case is the panic.
abbrev pub Parsed : Hex → Bytes → Type 0
Parsed hex s =
    (IsRawText s
      × ((key : Bytes) × (from_str hex s ≡ some (ok (raw key)))
          × (hex.decode s ≡ some key)
          × IsPsk (raw key)))
    ⊎ ((¬ IsRawText s) × IsPsk (passphrase s) × (from_str hex s ≡ some (ok (passphrase s))))
    ⊎ ((¬ IsRawText s) × (¬ IsPsk (passphrase s)) × (from_str hex s ≡ some (err invalid_psk)))

module _ (hex : Hex) (laws : IsHex hex) where
  -- With a hex crate as documented, parsing never panics. A text of 64 hexadecimal digits is the
  -- raw key of 32 bytes that it spells. Any other text is a passphrase if it has 8 to 63 printable
  -- characters and no quote, and `InvalidPsk` if not.
  pub from_str-IsPsk : (s : Bytes) → Parsed hex s
  unfolding from_str
  from_str-IsPsk s = elim (Bool-cases (length s == 64 && all is_ascii_hexdigit s)) [
    | inl yes' ↦
        let long : length s ≡ 64 = ground arith in
        let digits : all is_ascii_hexdigit s ≡ true = ground arith in
        let (key, read, len, bytes) = laws.decode_digits s 32 (omega arith) digits in
        inl ((long, digits), (key, rw (yes', read) refl, read, (len, bytes)))
    | inr no' ↦
        let not_raw : ¬ IsRawText s = λ r. ground arith in
        elim (new_passphrase-IsPsk s) [
          | inl (v, e) ↦ inr (inl (not_raw, v, rw (no', e) refl))
          | inr (v, e) ↦ inr (inr (not_raw, v, rw (no', e) refl))
        ]
  ]
