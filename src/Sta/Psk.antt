-- ===== src/Sta/Psk.antt =====
-- `Psk` and `KeyMgmt` of src/sta/types.rs, and `conf_escape` of src/sta/mod.rs.
pub mod Fields
pub mod Parse
use mathlib.Core.Option
use wifi_ctrl.Prelude.{
  ℕ, ◌≤◌, Bool, true, false, not, ◌&&◌, ◌||◌, [], ◌∷◌, ◌++◌, Option, none, some, ◌==◌, leb,
  if◌then◌else◌, ok, err, length, all, All, ◌≡◌,
}
use wifi_ctrl.Text.{Bytes, codes}
use wifi_ctrl.Text.Hex.{Hex, is_ascii_hexdigit, IsByte}
use wifi_ctrl.Errors.{ClientResult, invalid_psk}

-- `PskInner`.
pub data Psk : Type 0 where
  passphrase raw : Bytes → Psk

abbrev pub is_quotable : ℕ → Bool
is_quotable b = leb 0x20 b && leb b 0x7e && not (b == b'"')

-- `Psk::passphrase`.
unfoldable pub new_passphrase : Bytes → ClientResult Psk
new_passphrase s =
    if not (all is_quotable s) || not (leb 8 (length s) && leb (length s) 63)
    then err invalid_psk
    else ok (passphrase s)

-- Its `Debug`, which shows nothing of the key.
unfoldable pub debug : Psk → Bytes
debug psk = codes "Psk(<redacted>)"

-- What the constructors let through.
abbrev pub IsPsk : Psk → Type 0
IsPsk (passphrase s) = (all is_quotable s ≡ true) × (8 ≤ length s) × (length s ≤ 63)
IsPsk (raw key) = (length key ≡ 32) × All IsByte key

abbrev pub quoted : Bytes → Bytes
quoted s = b'"' ∷ (s ++ b'"' ∷ [])

abbrev pub is_ascii_graphic : ℕ → Bool
is_ascii_graphic b = leb 0x21 b && leb b 0x7e

abbrev pub is_plain : ℕ → Bool
is_plain b = is_ascii_graphic b && not (b == b'"')

-- `hex` is the crate of that name.
module _ (hex : Hex) where
  -- `Psk::to_field`.
  unfoldable pub to_field : Psk → Bytes
  to_field (passphrase s) = quoted s
  to_field (raw key) = hex.encode key

  -- `Psk::from_str`; `none` is the panic of `expect("64 hex digits")`.
  unfoldable pub from_str : Bytes → Option (ClientResult Psk)
  from_str s =
      if length s == 64 && all is_ascii_hexdigit s
      then Option.map (λ key. ok (raw key)) (hex.decode s)
      else some (new_passphrase s)

  unfoldable pub conf_escape : Bytes → Bytes
  conf_escape s = if all is_plain s then quoted s else hex.encode s

-- `KeyMgmt`, and its `Display`.
pub data KeyMgmt : Type 0 where
  none_mgmt wpa_psk wpa_eap ieee8021x : KeyMgmt

unfoldable pub display_key_mgmt : KeyMgmt → Bytes
display_key_mgmt none_mgmt = codes "NONE"
display_key_mgmt wpa_psk = codes "WPA-PSK"
display_key_mgmt wpa_eap = codes "WPA-EAP"
display_key_mgmt ieee8021x = codes "IEEE8021X"
