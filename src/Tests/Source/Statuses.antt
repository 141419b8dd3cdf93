-- ===== src/Tests/Source/Statuses.antt =====
-- The tests of `parse_status` in src/sta/types.rs. The map's order is the order of the lines.
use wifi_ctrl.Prelude.{
  ℕ, Bool, true, false, ◌&&◌, ◌==◌, Option, none, some, Result, ok, err, ◌≡◌, refl,
}
use wifi_ctrl.Text.{Bytes, codes, lines, bytes_eq, split_once, rsplit_once}
use wifi_ctrl.Text.Number.{parse_unsigned, parse_digits}
use wifi_ctrl.Text.Trim.{trim_start, trim_end}
use wifi_ctrl.Text.Utf8.{from_utf8}
use wifi_ctrl.Errors.{ParseError}
use wifi_ctrl.Config.Unprintf.{unprintf, unescape}
use wifi_ctrl.Config.Table.{parse_table, fill, parse_line, push_value}
use wifi_ctrl.Config.Deserialize.{from_str_map, strings, deserialize_string, only, get}
use wifi_ctrl.Sta.Status.{Status, parse_status}

-- `==` with `Some(s)` and `Some(n)`.
abbrev is_text : Bytes → Option Bytes → Bool
is_text s none = false
is_text s (some t) = bytes_eq t s

abbrev is_number : ℕ → Option ℕ → Bool
is_number n none = false
is_number n (some k) = k == n

-- `== None`.
abbrev is_none : {A : Type 0} → Option A → Bool
is_none none = true
is_none (some a) = false

-- What is asserted of the status that `unwrap` gives.
abbrev of_status : (Status → Bool) → Result ParseError Status → Bool
of_status asserts (ok status) = asserts status
of_status asserts (err e) = false

abbrev resp : Bytes
resp =
    codes
      "bssid=cc:7b:5c:1a:d2:21\nfreq=2412\nssid=my-network\nid=3\nmode=station\nwpa_state=COMPLETED\naddress=aa:bb:cc:dd:ee:ff\nip_address=192.168.1.42\nsome_future_key=42"

-- `status.get(key)` is `get` of the raw map.
abbrev parse_status_types_known_fields_and_keeps_raw : Bool
parse_status_types_known_fields_and_keeps_raw =
    of_status
      (λ status.
        is_text (codes "COMPLETED") status.wpa_state
        && is_text (codes "my-network") status.ssid
        && is_number 3 status.id
        && is_number 2412 status.freq
        && is_text (codes "192.168.1.42") status.ip_address
        && is_none status.key_mgmt
        && is_text (codes "42") (get (codes "some_future_key") status.raw))
      (parse_status (λ t. t) resp)

abbrev parse_status_tolerates_sparse_response : Bool
parse_status_tolerates_sparse_response =
    of_status
      (λ status.
        is_text (codes "SCANNING") status.wpa_state && is_none status.ssid && is_none status.id)
      (parse_status (λ t. t) (codes "wpa_state=SCANNING"))

statuses_pass :
    (parse_status_types_known_fields_and_keeps_raw ≡ true)
    × (parse_status_tolerates_sparse_response ≡ true)
unfolding parse_status from_str_map parse_table fill parse_line push_value lines trim_start trim_end
    split_once rsplit_once parse_unsigned parse_digits bytes_eq strings deserialize_string only get
    unprintf unescape from_utf8
statuses_pass = (refl, refl)
