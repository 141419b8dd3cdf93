-- ===== src/Sta/Psk/Fields.antt =====
-- The values of the fields of src/sta/mod.rs, read as a quoted string or as hexadecimal digits.
use mathlib.Core.Option
use wifi_ctrl.Prelude.{
  true, [], ◌∷◌, ◌++◌, Option, none, some, ◌==◌, if◌then◌else◌, all, All, ◌≡◌, inl, inr, refl,
  arith, Bool-cases, ap, ◌∙◌,
}
use wifi_ctrl.Text.{Bytes}
use wifi_ctrl.Text.Hex.{Hex, IsHex, is_ascii_hexdigit, to_ascii_lowercase, IsByte}
use wifi_ctrl.Sta.Psk.{Psk, passphrase, raw, is_quotable, IsPsk, is_plain, to_field, conf_escape}

-- The text in front of a closing quote, which ends the field: printable, and with no quote.
abbrev pub before_quote : Bytes → Option Bytes
before_quote [] = none
before_quote (x ∷ []) = if x == b'"' then some [] else none
before_quote (x ∷ y ∷ r) = if is_quotable x then Option.map (◌∷◌ x) (before_quote (y ∷ r)) else none

abbrev pub unquote : Bytes → Option Bytes
unquote [] = none
unquote (x ∷ r) = if x == b'"' then before_quote r else none

before_quote-quoted :
    (s : Bytes) → all is_quotable s ≡ true → before_quote (s ++ b'"' ∷ []) ≡ some s
before_quote-quoted [] h = refl
before_quote-quoted (x ∷ []) h = ground arith
before_quote-quoted (x ∷ y ∷ s) h =
    let first : is_quotable x ≡ true = ground arith in
    rw (before_quote-quoted (y ∷ s) (ground arith), first) refl

is_plain-is_quotable : (s : Bytes) → all is_plain s ≡ true → all is_quotable s ≡ true
is_plain-is_quotable [] h = refl
is_plain-is_quotable (x ∷ s) h = ground (arith, is_plain-is_quotable s)

-- Text that begins with a hexadecimal digit is not quoted.
abbrev HexDigits : Bytes → Type 0
HexDigits = All (λ c. (is_ascii_hexdigit c ≡ true) × (to_ascii_lowercase c ≡ c))

unquote-HexDigits : (s : Bytes) → HexDigits s → unquote s ≡ none
unquote-HexDigits [] h = refl
unquote-HexDigits (c ∷ s) h = ground arith

module _ (hex : Hex) where
  -- A reader of the `ssid` field, and of the `psk` field.
  abbrev pub read_ssid : Bytes → Option Bytes
  read_ssid f = elim (unquote f) [ some s ↦ some s | none ↦ hex.decode f ]

  abbrev pub read_psk : Bytes → Option Psk
  read_psk f = elim (unquote f) [
    | some s ↦ some (passphrase s)
    | none ↦ Option.map raw (hex.decode f)
  ]

  module _ (laws : IsHex hex) where
    -- Whatever bytes an SSID has, its field is read back as those bytes.
    pub read_ssid-conf_escape : (s : Bytes) → All IsByte s → read_ssid (conf_escape hex s) ≡ some s
    unfolding conf_escape
    read_ssid-conf_escape s h = elim (Bool-cases (all is_plain s)) [
      | inl plain ↦ rw (plain, before_quote-quoted s (is_plain-is_quotable s plain), read_ssid) refl
      | inr other ↦
          let escaped : conf_escape hex s ≡ hex.encode s = rw other refl in
          ap read_ssid escaped
          ∙ rw (unquote-HexDigits (hex.encode s) (laws.encode_digits s h), read_ssid)
              (laws.decode_encode s h)
    ]

    -- The field of a valid key is read back as that key, and of the same kind.
    pub read_psk-to_field : (p : Psk) → IsPsk p → read_psk (to_field hex p) ≡ some p
    unfolding to_field
    read_psk-to_field (passphrase s) h = rw (before_quote-quoted s h.0, read_psk) refl
    read_psk-to_field (raw key) h =
        rw
          (
            unquote-HexDigits (hex.encode key) (laws.encode_digits key h.1),
            laws.decode_encode key h.1,
            read_psk,
          )
          refl
