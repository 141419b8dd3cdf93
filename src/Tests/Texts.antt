-- ===== src/Tests/Texts.antt =====
-- The parsers and printers.
use wifi_ctrl.Prelude.{List, [], ◌∷◌, ◌++◌, none, some, ok, ◌≡◌, ◌↔◌, refl, arith, map}
use wifi_ctrl.Text.{Bytes, codes, lines, bytes_eq, split_once, rsplit_once}
use wifi_ctrl.Text.Hex.{to_ascii_lowercase}
use wifi_ctrl.Text.Join.{join}
use wifi_ctrl.Text.Number.{parse_unsigned, parse_signed, negsuc, parse_digits, parse_hex_u8}
use wifi_ctrl.Text.Trim.{trim, trim_start, trim_end}
use wifi_ctrl.Text.Utf8.{IsUtf8, from_utf8}
use wifi_ctrl.Config.Unprintf.{unprintf, unescape, hex_escape, plain_escape}
use wifi_ctrl.Config.Escapes.{Escapes, unprintf-Escapes}
use wifi_ctrl.Config.Table.{Table, parse_table, values_of, fill, parse_line, push_value}
use wifi_ctrl.Config.Form.{LineOf, parse_line_iff}
use wifi_ctrl.Config.Collect.{Collects, parse_table-Collects, parse_table_total}
use wifi_ctrl.Config.Deserialize.{from_str_map, strings, deserialize_string, only, get}
use wifi_ctrl.Sta.Bssid.{Bssid, IsBssid, from_str, display}
use wifi_ctrl.Sta.Bssid.Iff.{from_str_iff}
use wifi_ctrl.Sta.Network.{ssid_value, set_network}
use wifi_ctrl.Sta.Network.Command.{read_set_network, read_set_network-set_network}
use wifi_ctrl.Sta.Psk.Parse.{Parsed, from_str-IsPsk}
use wifi_ctrl.Sta.Scan.{ScanResult, vec_from_str, from_line, from_lines, sort_by_signal}
use wifi_ctrl.Prelude.Sorting.{sort_by, insert_by}
use wifi_ctrl.Sta.Scan.Form.{IsScan, from_line_iff}
use wifi_ctrl.Sta.Scan.Sorted.{Scans, vec_from_str-Scans}
use wifi_ctrl.Sta.Status.{Status, parse_status}
use wifi_ctrl.Sta.Status.Lookup.{Reads, parse_status-Reads}
use wifi_ctrl.Tests.HexCodec.{codec, codec-IsHex}

-- The SSID of the program's tests, as hostapd escapes it and as it is.
abbrev shrug_escaped : Bytes
shrug_escaped = 0xc2 ∷ 0xaf ∷ (codes "\\\\_(\\xe3\\x83\\x84)_/" ++ 0xc2 ∷ 0xaf ∷ [])

abbrev shrug : Bytes
shrug = 0xc2 ∷ 0xaf ∷ (codes "\\_(" ++ (0xe3 ∷ 0x83 ∷ 0x84 ∷ (codes ")_/" ++ 0xc2 ∷ 0xaf ∷ [])))

unprintf-shrug : unprintf shrug_escaped ≡ ok shrug
unfolding unprintf unescape from_utf8 hex_escape parse_hex_u8 parse_digits plain_escape
unprintf-shrug = refl

unprintf-Escapes_example :
    (unprintf shrug_escaped ≡ ok shrug) ↔ (Escapes shrug_escaped shrug × IsUtf8 shrug)
unprintf-Escapes_example = unprintf-Escapes shrug_escaped shrug

abbrev two_bss : Bytes
two_bss = codes "state=ENABLED\nbss[0]=wlan0\nbss[1]=wlan1"

abbrev two_bss_table : Table
two_bss_table =
    (record { key = codes "state"; values = codes "ENABLED" ∷ [] })
    ∷ (record { key = codes "bss"; values = codes "wlan0" ∷ codes "wlan1" ∷ [] })
    ∷ []

parse_table-two_bss : parse_table two_bss ≡ ok two_bss_table
unfolding parse_table fill parse_line push_value lines trim_start trim_end split_once rsplit_once
    parse_unsigned parse_digits bytes_eq
parse_table-two_bss = refl

parse_line_iff_example :
    (parse_line (codes "bss[1]=a=b")
      ≡ ok (record { key = codes "bss"; index = 1; value = codes "a=b" }))
    ↔ LineOf (codes "bss[1]=a=b") (record { key = codes "bss"; index = 1; value = codes "a=b" })
parse_line_iff_example =
    parse_line_iff (codes "bss[1]=a=b")
      (record { key = codes "bss"; index = 1; value = codes "a=b" })

parse_table-Collects_example :
    Collects (codes "bss") 0 (lines (trim two_bss)) (values_of (codes "bss") two_bss_table)
parse_table-Collects_example =
    parse_table-Collects two_bss two_bss_table (codes "bss") parse_table-two_bss

parse_table_total_example :
    (t : Table) × (parse_table two_bss ≡ ok t)
    × ((k : Bytes) → Collects k 0 (lines (trim two_bss)) (values_of k t))
parse_table_total_example = parse_table_total two_bss (λ k.
    (values_of k two_bss_table, parse_table-Collects two_bss two_bss_table k parse_table-two_bss))

abbrev sparse : Bytes
sparse = codes "wpa_state=SCANNING\nid=3"

abbrev sparse_status : Status
sparse_status = record {
  wpa_state = some (codes "SCANNING");
  ssid = none;
  bssid = none;
  id = some 3;
  freq = none;
  address = none;
  ip_address = none;
  key_mgmt = none;
  mode = none;
  raw = (codes "wpa_state", codes "SCANNING") ∷ (codes "id", codes "3") ∷ [];
}

parse_status-sparse : parse_status (λ t. t) sparse ≡ ok sparse_status
unfolding parse_status from_str_map parse_table fill parse_line push_value lines trim_start trim_end
    split_once parse_unsigned parse_digits bytes_eq strings deserialize_string only get unprintf
    unescape from_utf8
parse_status-sparse = refl

parse_status-Reads_example :
    (vs : List Bytes) × Collects (codes "id") 0 (lines (trim sparse)) vs
    × Reads vs (get (codes "id") sparse_status.raw)
parse_status-Reads_example =
    parse_status-Reads (λ t. t) sparse sparse_status (codes "id") (λ t k. refl) parse_status-sparse

abbrev mac : Bssid
mac = record { mac = 0xcc ∷ 0x7b ∷ 0x5c ∷ 0x1a ∷ 0xd2 ∷ 0x21 ∷ [] }

from_str-upper : from_str (codes "CC:7B:5C:1A:D2:21") ≡ ok mac
from_str-upper =
    (from_str_iff (codes "CC:7B:5C:1A:D2:21") mac).1
      (record { six = refl; bytes = omega arith }, unfold display join in refl)

from_str_iff_example :
    (from_str (codes "CC:7B:5C:1A:D2:21") ≡ ok mac)
    ↔ (IsBssid mac × (display mac ≡ map to_ascii_lowercase (codes "CC:7B:5C:1A:D2:21")))
from_str_iff_example = from_str_iff (codes "CC:7B:5C:1A:D2:21") mac

from_str-IsPsk_example : Parsed codec (codes "password123")
from_str-IsPsk_example = from_str-IsPsk codec codec-IsHex (codes "password123")

read_set_network-set_network_example :
    read_set_network codec (set_network codec 3 (ssid_value (codes "my wifi")))
    ≡ some (3, ssid_value (codes "my wifi"))
read_set_network-set_network_example =
    read_set_network-set_network codec codec-IsHex 3 (ssid_value (codes "my wifi")) (omega arith)
      (omega arith)

abbrev two_lines : Bytes
two_lines =
    codes
      "bssid / frequency / signal level / flags / ssid\n00:5f:67:90:da:64\t2417\t-33\t[ESS]\tA\nodd\ne0:91:f5:7d:11:c0\t2462\t-35\t[ESS]\tB\n"

vec_from_str-two_lines :
    vec_from_str two_lines
    ≡ ok (
        (record {
          mac = codes "e0:91:f5:7d:11:c0";
          frequency = codes "2462";
          signal = negsuc 34;
          flags = codes "[ESS]";
          name = codes "B";
        })
        ∷ (record {
          mac = codes "00:5f:67:90:da:64";
          frequency = codes "2417";
          signal = negsuc 32;
          flags = codes "[ESS]";
          name = codes "A";
        })
        ∷ [])
unfolding vec_from_str lines from_lines from_line sort_by_signal sort_by insert_by split_once
    parse_signed parse_digits unprintf unescape from_utf8
vec_from_str-two_lines = refl

abbrev far : ScanResult
far = record {
  mac = codes "00:5f:67:90:da:64";
  frequency = codes "2417";
  signal = negsuc 34;
  flags = codes "[ESS]";
  name = codes "a b";
}

from_line_iff_example :
    (from_line (codes "00:5f:67:90:da:64\t2417\t-35\t[ESS]\ta b") ≡ some far)
    ↔ IsScan (codes "00:5f:67:90:da:64\t2417\t-35\t[ESS]\ta b") far
from_line_iff_example = from_line_iff (codes "00:5f:67:90:da:64\t2417\t-35\t[ESS]\ta b") far

vec_from_str-Scans_example :
    (rs : List ScanResult) × (vec_from_str two_lines ≡ ok rs) × Scans two_lines rs
vec_from_str-Scans_example = vec_from_str-Scans two_lines
