-- ===== src/Sta/Client.antt =====
-- The requests, answers and broadcasts of src/sta/client.rs. A `oneshot::Sender` is the number of
-- its channel.
use wifi_ctrl.Prelude.{ℕ, Bool, true, false, List}
use wifi_ctrl.Text.{Bytes, codes}
use wifi_ctrl.Errors.{ClientResult}
use wifi_ctrl.Sta.Network.{SetNetwork, RemoveNetwork}
use wifi_ctrl.Sta.Scan.{ScanResult}
use wifi_ctrl.Sta.Status.{Status}

-- `NetworkResult` of src/sta/types.rs.
pub record NetworkResult : Type 0 where
  pub network_id : ℕ
  pub ssid : Bytes
  pub flags : Bytes

pub data SelectResult : Type 0 where
  success wrong_psk not_found already_connected : SelectResult

unfoldable pub display_select_result : SelectResult → Bytes
display_select_result success = codes "success"
display_select_result wrong_psk = codes "wrong_psk"
display_select_result not_found = codes "network_not_found"
display_select_result already_connected = codes "already_connected"

pub data Request : Type 0 where
  custom : Bytes → ℕ → Request
  status networks scan add_network : ℕ → Request
  set_network : ℕ → SetNetwork → ℕ → Request
  save_config reload_config : ℕ → Request
  remove_network : RemoveNetwork → ℕ → Request
  select_network : ℕ → ℕ → Request
  shutdown : Request

unfoldable pub is_shutdown : Request → Bool
is_shutdown shutdown = true
is_shutdown _ = false

-- What goes through a channel, by the channel's type.
pub data Answer : Type 0 where
  text : ClientResult Bytes → Answer
  status_is : ClientResult Status → Answer
  networks_are : ClientResult (List NetworkResult) → Answer
  scan_is : ClientResult (List ScanResult) → Answer
  network_id_is : ClientResult ℕ → Answer
  finished : ClientResult (Unit {0}) → Answer
  selected : ClientResult SelectResult → Answer

-- `wrong_key` is `WrongPsk`, a name that `SelectResult` has too.
pub data Broadcast : Type 0 where
  connected disconnected network_not_found wrong_key ready : Broadcast
  unknown : Bytes → Broadcast
