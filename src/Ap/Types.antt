-- ===== src/Ap/Types.antt =====
-- src/ap/types.rs: `Status` and `Config`, and their `from_response` with the code that serde derives.
-- The largest value of `u64` is that of `usize`.
pub mod Lines
use wifi_ctrl.Prelude.{ℕ, List, [], ◌∷◌, Option, Result, ok, ◌>>=◌}
use wifi_ctrl.Text.{Bytes, codes}
use wifi_ctrl.Text.Number.{ℤ, pos, usize_max, u32_max}
use wifi_ctrl.Errors.{ConfigError}
use wifi_ctrl.Config.Table.{Table, parse_table}
use wifi_ctrl.Config.Deserialize.{
  deserialize_unsigned, deserialize_signed, deserialize_string, deserialize_seq,
}
use wifi_ctrl.Config.Struct.{
  Fields, string_field, option_string_field, strings_field, unsigned_field, option_unsigned_field,
  unsigneds_field, signed_field, check_entries, required, defaulted, optional,
}

pub record Status : Type 0 where
  pub state : Bytes
  pub phy : Bytes
  pub freq : ℕ
  pub num_sta_non_erp : Option ℕ
  pub num_sta_no_short_slot_time : Option ℕ
  pub num_sta_no_short_preamble : Option ℕ
  pub olbc : Option ℕ
  pub num_sta_ht_no_gf : Option ℕ
  pub num_sta_no_ht : Option ℕ
  pub num_sta_ht_20_mhz : Option ℕ
  pub num_sta_ht40_intolerant : Option ℕ
  pub olbc_ht : Option ℕ
  pub ht_op_mode : Option Bytes
  pub cac_time_seconds : Option ℕ
  pub cac_time_left_seconds : Option ℕ
  pub channel : Option ℕ
  pub secondary_channel : Option ℕ
  pub ieee80211n : Option ℕ
  pub ieee80211ac : Option ℕ
  pub ieee80211ax : Option ℕ
  pub beacon_int : Option ℕ
  pub dtim_period : Option ℕ
  pub ht_caps_info : Option Bytes
  pub ht_mcs_bitmask : Option Bytes
  pub supported_rates : Bytes
  pub max_txpower : Option ℕ
  pub bss : List Bytes
  pub bssid : List Bytes
  pub ssid : List Bytes
  pub num_sta : List ℕ

pub record Config : Type 0 where
  pub bssid : Bytes
  pub ssid : Bytes
  pub wps_state : Bytes
  pub wpa : ℤ
  pub key_mgmt : Option Bytes
  pub group_cipher : Option Bytes
  pub rsn_pairwise_cipher : Option Bytes
  pub wpa_pairwise_cipher : Option Bytes

abbrev pub status_fields : Fields
status_fields =
    (codes "state", string_field)
    ∷ (codes "phy", string_field)
    ∷ (codes "freq", unsigned_field u32_max)
    ∷ (codes "num_sta_non_erp", option_unsigned_field usize_max)
    ∷ (codes "num_sta_no_short_slot_time", option_unsigned_field usize_max)
    ∷ (codes "num_sta_no_short_preamble", option_unsigned_field usize_max)
    ∷ (codes "olbc", option_unsigned_field usize_max)
    ∷ (codes "num_sta_ht_no_gf", option_unsigned_field usize_max)
    ∷ (codes "num_sta_no_ht", option_unsigned_field usize_max)
    ∷ (codes "num_sta_ht_20_mhz", option_unsigned_field usize_max)
    ∷ (codes "num_sta_ht40_intolerant", option_unsigned_field usize_max)
    ∷ (codes "olbc_ht", option_unsigned_field usize_max)
    ∷ (codes "ht_op_mode", option_string_field)
    ∷ (codes "cac_time_seconds", option_unsigned_field usize_max)
    ∷ (codes "cac_time_left_seconds", option_unsigned_field usize_max)
    ∷ (codes "channel", option_unsigned_field usize_max)
    ∷ (codes "secondary_channel", option_unsigned_field usize_max)
    ∷ (codes "ieee80211n", option_unsigned_field usize_max)
    ∷ (codes "ieee80211ac", option_unsigned_field usize_max)
    ∷ (codes "ieee80211ax", option_unsigned_field usize_max)
    ∷ (codes "beacon_int", option_unsigned_field usize_max)
    ∷ (codes "dtim_period", option_unsigned_field usize_max)
    ∷ (codes "ht_caps_info", option_string_field)
    ∷ (codes "ht_mcs_bitmask", option_string_field)
    ∷ (codes "supported_rates", string_field)
    ∷ (codes "max_txpower", option_unsigned_field usize_max)
    ∷ (codes "bss", strings_field)
    ∷ (codes "bssid", strings_field)
    ∷ (codes "ssid", strings_field)
    ∷ (codes "num_sta", unsigneds_field u32_max)
    ∷ []

abbrev pub config_fields : Fields
config_fields =
    (codes "bssid", string_field)
    ∷ (codes "ssid", string_field)
    ∷ (codes "wps_state", string_field)
    ∷ (codes "wpa", signed_field 31)
    ∷ (codes "key_mgmt", option_string_field)
    ∷ (codes "group_cipher", option_string_field)
    ∷ (codes "rsn_pairwise_cipher", option_string_field)
    ∷ (codes "wpa_pairwise_cipher", option_string_field)
    ∷ []

unfoldable pub build_status : Table → Result ConfigError Status
unfolding required defaulted
build_status t = do
  state ← required (codes "state") deserialize_string t
  phy ← required (codes "phy") deserialize_string t
  freq ← required (codes "freq") (deserialize_unsigned u32_max) t
  num_sta_non_erp ← optional (codes "num_sta_non_erp") (deserialize_unsigned usize_max) t
  num_sta_no_short_slot_time ←
      optional (codes "num_sta_no_short_slot_time") (deserialize_unsigned usize_max) t
  num_sta_no_short_preamble ←
      optional (codes "num_sta_no_short_preamble") (deserialize_unsigned usize_max) t
  olbc ← optional (codes "olbc") (deserialize_unsigned usize_max) t
  num_sta_ht_no_gf ← optional (codes "num_sta_ht_no_gf") (deserialize_unsigned usize_max) t
  num_sta_no_ht ← optional (codes "num_sta_no_ht") (deserialize_unsigned usize_max) t
  num_sta_ht_20_mhz ← optional (codes "num_sta_ht_20_mhz") (deserialize_unsigned usize_max) t
  num_sta_ht40_intolerant ←
      optional (codes "num_sta_ht40_intolerant") (deserialize_unsigned usize_max) t
  olbc_ht ← optional (codes "olbc_ht") (deserialize_unsigned usize_max) t
  ht_op_mode ← optional (codes "ht_op_mode") deserialize_string t
  cac_time_seconds ← optional (codes "cac_time_seconds") (deserialize_unsigned usize_max) t
  cac_time_left_seconds ←
      optional (codes "cac_time_left_seconds") (deserialize_unsigned usize_max) t
  channel ← optional (codes "channel") (deserialize_unsigned usize_max) t
  secondary_channel ← optional (codes "secondary_channel") (deserialize_unsigned usize_max) t
  ieee80211n ← optional (codes "ieee80211n") (deserialize_unsigned usize_max) t
  ieee80211ac ← optional (codes "ieee80211ac") (deserialize_unsigned usize_max) t
  ieee80211ax ← optional (codes "ieee80211ax") (deserialize_unsigned usize_max) t
  beacon_int ← optional (codes "beacon_int") (deserialize_unsigned usize_max) t
  dtim_period ← optional (codes "dtim_period") (deserialize_unsigned usize_max) t
  ht_caps_info ← optional (codes "ht_caps_info") deserialize_string t
  ht_mcs_bitmask ← optional (codes "ht_mcs_bitmask") deserialize_string t
  supported_rates ← defaulted [] (codes "supported_rates") deserialize_string t
  max_txpower ← optional (codes "max_txpower") (deserialize_unsigned usize_max) t
  bss ← defaulted [] (codes "bss") (deserialize_seq deserialize_string) t
  bssid ← defaulted [] (codes "bssid") (deserialize_seq deserialize_string) t
  ssid ← defaulted [] (codes "ssid") (deserialize_seq deserialize_string) t
  num_sta ← defaulted [] (codes "num_sta") (deserialize_seq (deserialize_unsigned u32_max)) t
  ok (record {
    state = state;
    phy = phy;
    freq = freq;
    num_sta_non_erp = num_sta_non_erp;
    num_sta_no_short_slot_time = num_sta_no_short_slot_time;
    num_sta_no_short_preamble = num_sta_no_short_preamble;
    olbc = olbc;
    num_sta_ht_no_gf = num_sta_ht_no_gf;
    num_sta_no_ht = num_sta_no_ht;
    num_sta_ht_20_mhz = num_sta_ht_20_mhz;
    num_sta_ht40_intolerant = num_sta_ht40_intolerant;
    olbc_ht = olbc_ht;
    ht_op_mode = ht_op_mode;
    cac_time_seconds = cac_time_seconds;
    cac_time_left_seconds = cac_time_left_seconds;
    channel = channel;
    secondary_channel = secondary_channel;
    ieee80211n = ieee80211n;
    ieee80211ac = ieee80211ac;
    ieee80211ax = ieee80211ax;
    beacon_int = beacon_int;
    dtim_period = dtim_period;
    ht_caps_info = ht_caps_info;
    ht_mcs_bitmask = ht_mcs_bitmask;
    supported_rates = supported_rates;
    max_txpower = max_txpower;
    bss = bss;
    bssid = bssid;
    ssid = ssid;
    num_sta = num_sta;
  })

unfoldable pub build_config : Table → Result ConfigError Config
unfolding required defaulted
build_config t = do
  bssid ← required (codes "bssid") deserialize_string t
  ssid ← required (codes "ssid") deserialize_string t
  wps_state ← required (codes "wps_state") deserialize_string t
  wpa ← defaulted (pos 0) (codes "wpa") (deserialize_signed 31) t
  key_mgmt ← optional (codes "key_mgmt") deserialize_string t
  group_cipher ← optional (codes "group_cipher") deserialize_string t
  rsn_pairwise_cipher ← optional (codes "rsn_pairwise_cipher") deserialize_string t
  wpa_pairwise_cipher ← optional (codes "wpa_pairwise_cipher") deserialize_string t
  ok (record {
    bssid = bssid;
    ssid = ssid;
    wps_state = wps_state;
    wpa = wpa;
    key_mgmt = key_mgmt;
    group_cipher = group_cipher;
    rsn_pairwise_cipher = rsn_pairwise_cipher;
    wpa_pairwise_cipher = wpa_pairwise_cipher;
  })

-- `Status::from_response` and `Config::from_response`; `order` is the order in which the `HashMap` is
-- iterated.
unfoldable pub status_from_response : (Table → Table) → Bytes → Result ConfigError Status
unfolding build_status
status_from_response order response = do
  t ← parse_table response
  u ← check_entries status_fields (order t)
  build_status t

unfoldable pub config_from_response : (Table → Table) → Bytes → Result ConfigError Config
unfolding build_config
config_from_response order response = do
  t ← parse_table response
  u ← check_entries config_fields (order t)
  build_config t
