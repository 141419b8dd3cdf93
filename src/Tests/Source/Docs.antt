-- ===== src/Tests/Source/Docs.antt =====
-- The examples in the documentation of src/ap/types.rs. The map's order is the order of the lines.
use wifi_ctrl.Prelude.{Bool, true, false, ◌&&◌, ◌==◌, List, [], ◌∷◌, ◌++◌, ok, err, ◌≡◌, refl}
use wifi_ctrl.Text.{Bytes, codes, lines, bytes_eq, split_once, rsplit_once}
use wifi_ctrl.Text.Number.{parse_unsigned, parse_signed, parse_digits, parse_hex_u8}
use wifi_ctrl.Text.Trim.{trim_start, trim_end}
use wifi_ctrl.Text.Utf8.{from_utf8}
use wifi_ctrl.Config.Unprintf.{unprintf, unescape, hex_escape, plain_escape}
use wifi_ctrl.Config.Table.{parse_table, fill, parse_line, push_value}
use wifi_ctrl.Config.Deserialize.{
  deserialize_string, deserialize_unsigned, deserialize_signed, deserialize_option, deserialize_seq,
  only,
}
use wifi_ctrl.Config.Struct.{check_entries}
use wifi_ctrl.Ap.Types.{config_from_response, status_from_response}
use wifi_ctrl.Tests.Source.Configs.{macron, shrug, of_config, is_pos}

-- `==` of two vectors.
abbrev all_eq : {A : Type 0} → (A → A → Bool) → List A → List A → Bool
all_eq eq [] [] = true
all_eq eq (x ∷ xs) (y ∷ ys) = eq x y && all_eq eq xs ys
all_eq eq _ _ = false

abbrev resp : Bytes
resp =
    codes
      "\nstate=ENABLED\nphy=phy0\nfreq=2437\nnum_sta_non_erp=0\nnum_sta_no_short_slot_time=0\nnum_sta_no_short_preamble=0\nolbc=0\nnum_sta_ht_no_gf=0\nnum_sta_no_ht=0\nnum_sta_ht_20_mhz=0\nnum_sta_ht40_intolerant=0\nolbc_ht=0\nht_op_mode=0x0\ncac_time_seconds=0\ncac_time_left_seconds=N/A\nchannel=6\nedmg_enable=0\nedmg_channel=0\nsecondary_channel=0\nieee80211n=0\nieee80211ac=0\nieee80211ax=0\nbeacon_int=100\ndtim_period=2\nsupported_rates=02 04 0b 16 0c 12 18 24 30 48 60 6c\nmax_txpower=20\nbss[0]=wlan0\nbssid[0]=cc:7b:5c:1a:d2:21\nssid[0]=WiFi-SSID\nnum_sta[0]=0\nbss[1]=wlan1\nbssid[1]=cc:7b:5c:4d:ff:5c\nssid[1]="
    ++ (macron ++ (codes "\\\\_(\\xe3\\x83\\x84)_/" ++ (macron ++ codes "\nnum_sta[1]=1\n")))

-- The example of `Status::from_response`.
abbrev status_example : Bool
status_example = elim (status_from_response (λ t. t) resp) [
  | ok status ↦
      bytes_eq status.state (codes "ENABLED")
      && status.freq == 2437
      && all_eq bytes_eq status.ssid (codes "WiFi-SSID" ∷ shrug ∷ [])
      && all_eq ◌==◌ status.num_sta (0 ∷ 1 ∷ [])
  | err e ↦ false
]

-- The example of `Config::from_response`.
abbrev config_example : Bool
config_example =
    of_config
      (λ config.
        bytes_eq config.wps_state (codes "disabled")
        && is_pos 2 config.wpa
        && bytes_eq config.ssid (codes "WiFi-SSID"))
      (codes
        "\nbssid=cc:7b:5c:1a:d2:21\nssid=WiFi-SSID\nwps_state=disabled\nwpa=2\nkey_mgmt=WPA-PSK\ngroup_cipher=CCMP\nrsn_pairwise_cipher=CCMP\nwpa_pairwise_cipher=CCMP\n")

docs_hold : (status_example ≡ true) × (config_example ≡ true)
unfolding config_from_response status_from_response parse_table fill parse_line push_value lines
    trim_start trim_end split_once rsplit_once parse_unsigned parse_signed parse_digits bytes_eq
    deserialize_string deserialize_unsigned deserialize_signed deserialize_option deserialize_seq
    only unprintf unescape hex_escape plain_escape parse_hex_u8 from_utf8 check_entries
docs_hold = (refl, refl)
