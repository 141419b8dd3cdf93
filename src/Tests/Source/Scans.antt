-- ===== src/Tests/Source/Scans.antt =====
-- The example in the documentation of `ScanResult::vec_from_str` in src/sta/types.rs.
use wifi_ctrl.Prelude.{ℕ, Bool, true, false, ◌&&◌, ◌==◌, ◌∷◌, ◌++◌, ok, err, ◌≡◌, refl}
use wifi_ctrl.Prelude.Sorting.{sort_by, insert_by}
use wifi_ctrl.Text.{Bytes, codes, lines, bytes_eq, split_once}
use wifi_ctrl.Text.Number.{ℤ, pos, negsuc, parse_signed, parse_digits, parse_hex_u8}
use wifi_ctrl.Text.Utf8.{from_utf8}
use wifi_ctrl.Config.Unprintf.{unprintf, unescape, hex_escape, plain_escape}
use wifi_ctrl.Sta.Scan.{vec_from_str, from_lines, from_line, sort_by_signal}
use wifi_ctrl.Tests.Source.Configs.{macron, shrug}

abbrev resp : Bytes
resp =
    codes
      "bssid / frequency / signal level / flags / ssid\n00:5f:67:90:da:64\t2417\t-35\t[WPA-PSK-CCMP][WPA2-PSK-CCMP][ESS]\tTP-Link DA64\ne0:91:f5:7d:11:c0\t2462\t-33\t[WPA2-PSK-CCMP][WPS][ESS]\t"
    ++ (macron ++ (codes "\\\\_(\\xe3\\x83\\x84)_/" ++ (macron ++ codes "\n")))

-- `== -(n + 1)`.
abbrev is_negsuc : ℕ → ℤ → Bool
is_negsuc n (pos k) = false
is_negsuc n (negsuc k) = k == n

-- The indices that it asks for are there.
abbrev scan_example : Bool
scan_example = elim (vec_from_str resp) [
  | ok (first ∷ second ∷ rest) ↦
      bytes_eq first.mac (codes "00:5f:67:90:da:64")
      && bytes_eq first.name (codes "TP-Link DA64")
      && is_negsuc 32 second.signal
      && bytes_eq second.name shrug
  | ok _ ↦ false
  | err e ↦ false
]

scan_holds : scan_example ≡ true
unfolding vec_from_str lines from_lines from_line sort_by_signal sort_by insert_by split_once
    parse_signed parse_digits unprintf unescape from_utf8 hex_escape plain_escape parse_hex_u8
    bytes_eq
scan_holds = refl
