-- ===== src/Tests/Source/Configs.antt =====
-- The tests of `Config` in src/ap/types.rs and of src/config.rs. The map's order is the order of the
-- lines.
use wifi_ctrl.Prelude.{
  ℕ, Bool, true, false, ◌&&◌, ◌==◌, [], ◌∷◌, ◌++◌, none, some, ok, err, ◌≡◌, refl,
}
use wifi_ctrl.Text.{Bytes, codes, lines, bytes_eq, split_once, rsplit_once}
use wifi_ctrl.Text.Number.{ℤ, pos, negsuc, parse_unsigned, parse_signed, parse_digits, parse_hex_u8}
use wifi_ctrl.Text.Trim.{trim_start, trim_end}
use wifi_ctrl.Text.Utf8.{from_utf8}
use wifi_ctrl.Config.Unprintf.{unprintf, unescape, hex_escape, plain_escape}
use wifi_ctrl.Config.Table.{parse_table, fill, parse_line, push_value}
use wifi_ctrl.Config.Deserialize.{
  from_str_map, strings, deserialize_string, deserialize_signed, deserialize_option, only, get,
}
use wifi_ctrl.Config.Struct.{check_entries}
use wifi_ctrl.Ap.Types.{Config, config_from_response}

-- "¯", and the shrug with it and "ツ".
abbrev pub macron : Bytes
macron = 0xc2 ∷ 0xaf ∷ []

abbrev pub shrug : Bytes
shrug = macron ++ (codes "\\_(" ++ (0xe3 ∷ 0x83 ∷ 0x84 ∷ (codes ")_/" ++ macron)))

abbrev pub is_pos : ℕ → ℤ → Bool
is_pos n (pos k) = k == n
is_pos n (negsuc k) = false

-- What is asserted of the configuration that `unwrap` gives.
abbrev pub of_config : (Config → Bool) → Bytes → Bool
of_config asserts resp = elim (config_from_response (λ t. t) resp) [
  | ok config ↦ asserts config
  | err e ↦ false
]

abbrev test_config_wpa_psk : Bool
test_config_wpa_psk =
    of_config
      (λ config.
        is_pos 2 config.wpa
        && bytes_eq config.wps_state (codes "disabled")
        && bytes_eq config.ssid shrug)
      (codes
        "\nbssid=cc:7b:5c:1a:d2:21\nssid=\\xc2\\xaf\\\\_(\\xe3\\x83\\x84)_/\\xc2\\xaf\nwps_state=disabled\nwpa=2\nkey_mgmt=WPA-PSK\ngroup_cipher=CCMP\nrsn_pairwise_cipher=CCMP\n        ")

abbrev test_config_wsp_1 : Bool
test_config_wsp_1 =
    of_config
      (λ config.
        is_pos 2 config.wpa
        && bytes_eq config.wps_state (codes "not configured")
        && bytes_eq config.ssid (codes "MY_SSID"))
      (codes
        "\nbssid=cc:7b:5c:1a:d2:21\nssid=MY_SSID\nwps_state=not configured\npassphrase=MY_PASSPHRASE\npsk=8dbbe42cb44f21088fbb9cfbf24dc9b39787d6026d436b01b3ac7d34afb4416d\nwpa=2\nkey_mgmt=WPA-PSK\ngroup_cipher=CCMP\nrsn_pairwise_cipher=CCMP\n        ")

abbrev test_config_wsp_2 : Bool
test_config_wsp_2 =
    of_config
      (λ config.
        is_pos 2 config.wpa
        && bytes_eq config.wps_state (codes "configured")
        && bytes_eq config.ssid (codes "MY_SSID"))
      (codes
        "\nbssid=cc:7b:5c:1a:d2:21\nssid=MY_SSID\nwps_state=configured\npassphrase=MY_PASSPHRASE\npsk=8dbbe42cb44f21088fbb9cfbf24dc9b39787d6026d436b01b3ac7d34afb4416d\nwpa=2\nkey_mgmt=WPA-PSK\ngroup_cipher=CCMP\nrsn_pairwise_cipher=CCMP\n        ")

abbrev test_config_open : Bool
test_config_open =
    of_config (λ config. is_pos 0 config.wpa && bytes_eq config.ssid (codes "Wi-Fi"))
      (codes "\nbssid=cc:7b:5c:1a:d2:21\nssid=Wi-Fi\nwps_state=disabled\n        ")

-- The test of src/config.rs, whose text has "¯" as it is and "ツ" as an escape.
abbrev deserializer_resp : Bytes
deserializer_resp =
    codes "\n        state=ENABLED\n        shrug="
    ++ (macron ++ (codes "\\\\_(\\xe3\\x83\\x84)_/" ++ (macron ++ codes "\n        ")))

abbrev has_text : Bytes → Bytes → Bytes → Bool
has_text key value resp = elim (from_str_map (λ t. t) resp) [
  | ok map ↦ elim (get key map) [ some v ↦ bytes_eq v value | none ↦ false ]
  | err e ↦ false
]

abbrev test_deserializer : Bool
test_deserializer =
    has_text (codes "state") (codes "ENABLED") deserializer_resp
    && has_text (codes "shrug") shrug deserializer_resp

configs_pass :
    (test_config_wpa_psk ≡ true)
    × (test_config_wsp_1 ≡ true)
    × (test_config_wsp_2 ≡ true)
    × (test_config_open ≡ true)
    × (test_deserializer ≡ true)
unfolding config_from_response parse_table fill parse_line push_value lines trim_start trim_end
    split_once rsplit_once parse_unsigned parse_signed parse_digits bytes_eq from_str_map strings
    deserialize_string only get unprintf unescape hex_escape plain_escape parse_hex_u8 from_utf8
    check_entries deserialize_signed deserialize_option
configs_pass = (refl, refl, refl, refl, refl)
