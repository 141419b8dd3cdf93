-- ===== src/Sta/Network.antt =====
-- The commands that change a network: `SetNetwork` and `RemoveNetwork` of src/sta/client.rs, and the
-- texts that `handle_request` of src/sta/mod.rs makes from them.
pub mod Command
use wifi_ctrl.Prelude.{ℕ, [], ◌∷◌, ◌++◌}
use wifi_ctrl.Text.{Bytes, codes}
use wifi_ctrl.Text.Hex.{Hex}
use wifi_ctrl.Text.Number.{to_decimal}
use wifi_ctrl.Sta.Bssid.{Bssid}
use wifi_ctrl.Sta.Bssid
use wifi_ctrl.Sta.Psk.{Psk, KeyMgmt, display_key_mgmt, to_field, conf_escape}

pub data SetNetwork : Type 0 where
  ssid_value : Bytes → SetNetwork
  bssid_value : Bssid → SetNetwork
  psk_value : Psk → SetNetwork
  key_mgmt_value : KeyMgmt → SetNetwork

pub data RemoveNetwork : Type 0 where
  by_id : ℕ → RemoveNetwork
  every : RemoveNetwork

-- `format!("{name} {value}")`.
abbrev pub spaced : Bytes → Bytes → Bytes
spaced name value = name ++ (b' ' ∷ value)

module _ (hex : Hex) where
  unfoldable pub field : SetNetwork → Bytes
  field (ssid_value s) = spaced (codes "ssid") (conf_escape hex s)
  field (bssid_value b) = spaced (codes "bssid") (Bssid.display b)
  field (psk_value p) = spaced (codes "psk") (to_field hex p)
  field (key_mgmt_value m) = spaced (codes "key_mgmt") (display_key_mgmt m)

  unfoldable pub set_network : ℕ → SetNetwork → Bytes
  set_network id param = spaced (codes "SET_NETWORK") (spaced (to_decimal id) (field param))

unfoldable pub remove_network : RemoveNetwork → Bytes
remove_network (by_id id) = spaced (codes "REMOVE_NETWORK") (to_decimal id)
remove_network every = spaced (codes "REMOVE_NETWORK") (codes "all")

unfoldable pub select_network : ℕ → Bytes
select_network id = spaced (codes "SELECT_NETWORK") (to_decimal id)
