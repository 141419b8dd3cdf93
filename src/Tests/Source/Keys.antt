-- ===== src/Tests/Source/Keys.antt =====
-- The tests of keys in src/sta/mod.rs.
use wifi_ctrl.Prelude.{
  Bool, true, false, ◌&&◌, not, [], ◌∷◌, ◌++◌, Option, none, some, ok, err, take, ◌≡◌, refl,
}
use wifi_ctrl.Text.{Bytes, codes, bytes_eq}
use wifi_ctrl.Errors.{ClientResult, invalid_psk}
use wifi_ctrl.Sta.Psk.{Psk, new_passphrase, raw, to_field, from_str, debug}
use wifi_ctrl.Tests.HexCodec.{codec, encode, decode}

-- `assert_eq!(psk.unwrap().to_field(), field)`.
abbrev field_is : Bytes → ClientResult Psk → Bool
field_is field (ok psk) = bytes_eq (to_field codec psk) field
field_is field (err e) = false

-- `matches!(psk, Err(ClientError::InvalidPsk))`.
abbrev is_invalid_psk : ClientResult Psk → Bool
is_invalid_psk (err invalid_psk) = true
is_invalid_psk _ = false

abbrev psk_passphrase_is_quoted : Bool
psk_passphrase_is_quoted = field_is (codes "\"password123\"") (new_passphrase (codes "password123"))

abbrev psk_passphrase_with_spaces_is_quoted_not_hex : Bool
psk_passphrase_with_spaces_is_quoted_not_hex =
    field_is (codes "\"correct horse battery\"") (new_passphrase (codes "correct horse battery"))

abbrev hex_psk : Bytes
hex_psk = codes "8dbbe42cb44f21088fbb9cfbf24dc9b39787d6026d436b01b3ac7d34afb4416d"

abbrev raw_psk_is_bare_hex : Bool
raw_psk_is_bare_hex = elim (codec.decode hex_psk) [
  | some key ↦ bytes_eq (to_field codec (raw key)) hex_psk
  | none ↦ false
]

-- `s.parse::<Psk>()` does not panic, and gives this field.
abbrev parses_to : Bytes → Option (ClientResult Psk) → Bool
parses_to field none = false
parses_to field (some r) = field_is field r

abbrev psk_from_str_uses_conf_semantics : Bool
psk_from_str_uses_conf_semantics =
    parses_to hex_psk (from_str codec hex_psk)
    && parses_to (b'"' ∷ (take 63 hex_psk ++ b'"' ∷ [])) (from_str codec (take 63 hex_psk))

abbrev psk_with_quote_is_rejected : Bool
psk_with_quote_is_rejected = is_invalid_psk (new_passphrase (codes "pass\"; extra"))

abbrev psk_with_control_char_is_rejected : Bool
psk_with_control_char_is_rejected = is_invalid_psk (new_passphrase (codes "pass\nword"))

abbrev psk_outside_wpa_length_is_rejected : Bool
psk_outside_wpa_length_is_rejected =
    is_invalid_psk (new_passphrase (codes "short"))
    && is_invalid_psk
        (new_passphrase (codes "xxxxxxxxxxxxxxxxxxxxxxxxxxxxxxxxxxxxxxxxxxxxxxxxxxxxxxxxxxxxxxxx"))

-- Without the derived `Debug` of `SetNetwork`.
abbrev psk_debug_is_redacted : Bool
psk_debug_is_redacted = elim (new_passphrase (codes "password123")) [
  | ok psk ↦ bytes_eq (debug psk) (codes "Psk(<redacted>)")
  | err e ↦ false
]

-- `is_ok()` and, if there is no panic, `is_err()` of a parsed key.
abbrev is_key : ClientResult Psk → Bool
is_key (ok psk) = true
is_key (err e) = false

abbrev is_parsed : Bool → Option (ClientResult Psk) → Bool
is_parsed good none = false
is_parsed good (some (ok psk)) = good
is_parsed good (some (err e)) = not good

-- The examples in the documentation of `Psk` and of `Psk::passphrase`, in src/sta/types.rs.
abbrev psk_example : Bool
psk_example = elim (new_passphrase (codes "correct horse battery")) [
  | ok psk ↦
      is_parsed true (from_str codec (codes "correct horse battery"))
      && is_parsed false (from_str codec (codes "short"))
      && bytes_eq (debug psk) (codes "Psk(<redacted>)")
  | err e ↦ false
]

abbrev passphrase_example : Bool
passphrase_example =
    is_key (new_passphrase (codes "password123"))
    && not (is_key (new_passphrase (codes "2short")))
    && not (is_key (new_passphrase (codes "pass\"word123")))

keys_pass :
    (psk_passphrase_is_quoted ≡ true)
    × (psk_passphrase_with_spaces_is_quoted_not_hex ≡ true)
    × (raw_psk_is_bare_hex ≡ true)
    × (psk_from_str_uses_conf_semantics ≡ true)
    × (psk_with_quote_is_rejected ≡ true)
    × (psk_with_control_char_is_rejected ≡ true)
    × (psk_outside_wpa_length_is_rejected ≡ true)
    × (psk_debug_is_redacted ≡ true)
    × (psk_example ≡ true)
    × (passphrase_example ≡ true)
unfolding new_passphrase to_field from_str bytes_eq debug encode decode
keys_pass = (refl, refl, refl, refl, refl, refl, refl, refl, refl, refl)
