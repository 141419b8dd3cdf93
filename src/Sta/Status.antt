-- ===== src/Sta/Status.antt =====
-- `Status` and `parse_status` of src/sta/types.rs.
pub mod Lookup
use wifi_ctrl.Prelude.{ℕ, List, Option, none, some, Result, ok, ◌>>=◌, map_err, to_option}
use wifi_ctrl.Text.{Bytes, codes}
use wifi_ctrl.Text.Number.{parse_unsigned, usize_max, u32_max}
use wifi_ctrl.Errors.{ParseError, parse_config}
use wifi_ctrl.Config.Table.{Table}
use wifi_ctrl.Config.Deserialize.{from_str_map, get}

pub record Status : Type 0 where
  pub wpa_state : Option Bytes
  pub ssid : Option Bytes
  pub bssid : Option Bytes
  pub id : Option ℕ
  pub freq : Option ℕ
  pub address : Option Bytes
  pub ip_address : Option Bytes
  pub key_mgmt : Option Bytes
  pub mode : Option Bytes
  pub raw : List (Bytes × Bytes)

-- `raw.get(key).and_then(|v| v.parse().ok())`.
abbrev number_at : ℕ → Option Bytes → Option ℕ
number_at limit none = none
number_at limit (some v) = to_option (parse_unsigned limit v)

-- `order` is the order in which the `HashMap` of the response is iterated.
unfoldable pub parse_status : (Table → Table) → Bytes → Result ParseError Status
parse_status order response = do
  raw ← map_err parse_config (from_str_map order response)
  ok (record {
    wpa_state = get (codes "wpa_state") raw;
    ssid = get (codes "ssid") raw;
    bssid = get (codes "bssid") raw;
    id = number_at usize_max (get (codes "id") raw);
    freq = number_at u32_max (get (codes "freq") raw);
    address = get (codes "address") raw;
    ip_address = get (codes "ip_address") raw;
    key_mgmt = get (codes "key_mgmt") raw;
    mode = get (codes "mode") raw;
    raw = raw;
  })
