-- ===== src/Sta/Network/Command.antt =====
-- A reader of the `SET_NETWORK` commands that `handle_request` of src/sta/mod.rs makes.
use mathlib.Core.Option
use wifi_ctrl.Prelude.{
  ℕ, ◌≤◌, [], ◌∷◌, Option, none, some, if◌then◌else◌, ok, err, to_option, All, ◌≡◌, refl, arith,
}
use wifi_ctrl.Text.{Bytes, codes, bytes_eq, split_once, strip_prefix}
use wifi_ctrl.Text.Hex.{Hex, IsHex, IsByte}
use wifi_ctrl.Text.Splits.{split_once-append}
use wifi_ctrl.Text.Join.{Lacks}
use wifi_ctrl.Text.Number.{
  to_decimal, parse_unsigned, usize_max, IsDigit, to_decimal-IsDigit, parse_unsigned-to_decimal,
}
use wifi_ctrl.Sta.Bssid.{Bssid, IsBssid}
use wifi_ctrl.Sta.Bssid
use wifi_ctrl.Sta.Bssid.Laws.{from_str-display}
use wifi_ctrl.Sta.Psk.{IsPsk, KeyMgmt, none_mgmt, wpa_psk, wpa_eap, ieee8021x, display_key_mgmt}
use wifi_ctrl.Sta.Psk.Fields.{read_ssid, read_psk, read_ssid-conf_escape, read_psk-to_field}
use wifi_ctrl.Sta.Network.{
  SetNetwork, ssid_value, bssid_value, psk_value, key_mgmt_value, spaced, field, set_network,
}

-- The parameters that the client's types admit.
abbrev pub IsSetNetwork : SetNetwork → Type 0
IsSetNetwork (ssid_value s) = All IsByte s
IsSetNetwork (bssid_value b) = IsBssid b
IsSetNetwork (psk_value p) = IsPsk p
IsSetNetwork (key_mgmt_value m) = Unit {0}

digits-Lacks : (l : Bytes) → All IsDigit l → Lacks b' ' l
digits-Lacks [] h = tt
digits-Lacks (x ∷ l) h = (ground arith, digits-Lacks l h.1)

-- A reader of `SET_NETWORK <id> <name> <value>`.
read_key_mgmt : Bytes → Option KeyMgmt
read_key_mgmt v =
    if bytes_eq v (codes "NONE")
    then some none_mgmt
    else if bytes_eq v (codes "WPA-PSK")
    then some wpa_psk
    else if bytes_eq v (codes "WPA-EAP")
    then some wpa_eap
    else if bytes_eq v (codes "IEEE8021X")
    then some ieee8021x
    else none

module _ (hex : Hex) where
  read_value : Bytes → Bytes → Option SetNetwork
  unfolding read_key_mgmt
  read_value name v =
      if bytes_eq name (codes "ssid")
      then Option.map ssid_value (read_ssid hex v)
      else if bytes_eq name (codes "bssid")
      then Option.map bssid_value (to_option (Bssid.from_str v))
      else if bytes_eq name (codes "psk")
      then Option.map psk_value (read_psk hex v)
      else if bytes_eq name (codes "key_mgmt")
      then Option.map key_mgmt_value (read_key_mgmt v)
      else none

  abbrev read_field : Bytes → Option SetNetwork
  read_field f = elim (split_once b' ' f) [ some (name, v) ↦ read_value name v | none ↦ none ]

  abbrev read_id_field : Bytes → Bytes → Option (ℕ × SetNetwork)
  read_id_field id f = elim (parse_unsigned usize_max id) [
    | ok n ↦ Option.map (λ p. (n, p)) (read_field f)
    | err e ↦ none
  ]

  pub read_set_network : Bytes → Option (ℕ × SetNetwork)
  unfolding read_value
  read_set_network cmd = elim (strip_prefix (codes "SET_NETWORK ") cmd) [
    | some rest ↦ elim (split_once b' ' rest) [ some (id, f) ↦ read_id_field id f | none ↦ none ]
    | none ↦ none
  ]

  module _ (laws : IsHex hex) where
    read_field-field : (p : SetNetwork) → IsSetNetwork p → read_field (field hex p) ≡ some p
    unfolding field read_value bytes_eq split_once
    read_field-field (ssid_value s) h = rw (read_ssid-conf_escape hex laws s h) refl
    read_field-field (bssid_value b) h = rw (from_str-display b h) refl
    read_field-field (psk_value p) h = rw (read_psk-to_field hex laws p h) refl
    read_field-field (key_mgmt_value none_mgmt) h = unfold display_key_mgmt in refl
    read_field-field (key_mgmt_value wpa_psk) h = unfold display_key_mgmt in refl
    read_field-field (key_mgmt_value wpa_eap) h = unfold display_key_mgmt in refl
    read_field-field (key_mgmt_value ieee8021x) h = unfold display_key_mgmt in refl

    strip_prefix-set_network :
        (id : ℕ) (p : SetNetwork)
        → strip_prefix (codes "SET_NETWORK ") (set_network hex id p)
          ≡ some (spaced (to_decimal id) (field hex p))
    unfolding strip_prefix set_network
    strip_prefix-set_network id p = refl

    -- With a hex crate as documented, a network number that fits `usize` and a parameter that its
    -- constructors let through, a reader of the supplicant's syntax gets the same number and
    -- parameter from the command: nothing in the parameter's text can end the field or add another.
    pub read_set_network-set_network :
        (id : ℕ) (p : SetNetwork)
        → id ≤ usize_max
        → IsSetNetwork p
        → read_set_network (set_network hex id p) ≡ some (id, p)
    unfolding read_set_network
    read_set_network-set_network id p h v =
        rw
          (
            strip_prefix-set_network id p,
            read_set_network,
            split_once-append b' ' (to_decimal id) (field hex p)
                (digits-Lacks (to_decimal id) (to_decimal-IsDigit id)),
            parse_unsigned-to_decimal usize_max id h,
            read_id_field,
            read_field-field p v,
          )
          refl
