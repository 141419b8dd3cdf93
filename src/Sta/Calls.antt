-- ===== src/Sta/Calls.antt =====
-- `RequestClient` of src/sta/client.rs: the request that each of its methods makes, and what the method
-- returns.
use wifi_ctrl.Prelude.{ℕ, List, Option, none, some}
use wifi_ctrl.Text.{Bytes}
use wifi_ctrl.Errors.{ClientResult}
use wifi_ctrl.Sta.Bssid.{Bssid}
use wifi_ctrl.Sta.Client.{
  Request, Answer, text, status_is, networks_are, scan_is, network_id_is, finished, selected,
  NetworkResult, SelectResult,
}
use wifi_ctrl.Sta.Network.{ssid_value, bssid_value, psk_value, key_mgmt_value, by_id, every}
use wifi_ctrl.Sta.Psk.{Psk, KeyMgmt}
use wifi_ctrl.Sta.Scan.{ScanResult}
use wifi_ctrl.Sta.Status.{Status}

-- The methods that wait for an answer, with their arguments.
pub data Call : Type 0 where
  send_custom : Bytes → Call
  get_scan get_networks get_status add_network save_config reload_config remove_all_networks : Call
  set_network_psk : ℕ → Psk → Call
  set_network_ssid : ℕ → Bytes → Call
  set_network_bssid : ℕ → Bssid → Call
  set_network_keymgmt : ℕ → KeyMgmt → Call
  remove_network select_network : ℕ → Call

-- `build_request` of the method's `request`, at the oneshot channel.
unfoldable pub build_request : Call → ℕ → Request
build_request (send_custom custom) c = Request.custom custom c
build_request get_scan c = Request.scan c
build_request get_networks c = Request.networks c
build_request get_status c = Request.status c
build_request add_network c = Request.add_network c
build_request (set_network_psk id psk) c = Request.set_network id (psk_value psk) c
build_request (set_network_ssid id ssid) c = Request.set_network id (ssid_value ssid) c
build_request (set_network_bssid id bssid) c = Request.set_network id (bssid_value bssid) c
build_request (set_network_keymgmt id mgmt) c = Request.set_network id (key_mgmt_value mgmt) c
build_request save_config c = Request.save_config c
build_request reload_config c = Request.reload_config c
build_request (remove_network id) c = Request.remove_network (by_id id) c
build_request remove_all_networks c = Request.remove_network every c
build_request (select_network id) c = Request.select_network id c

-- The type that the method returns, in a `Result`.
abbrev pub Returned : Call → Type 0
Returned (send_custom custom) = Bytes
Returned get_scan = List ScanResult
Returned get_networks = List NetworkResult
Returned get_status = Status
Returned add_network = ℕ
Returned (set_network_psk id psk) = Unit {0}
Returned (set_network_ssid id ssid) = Unit {0}
Returned (set_network_bssid id bssid) = Unit {0}
Returned (set_network_keymgmt id mgmt) = Unit {0}
Returned save_config = Unit {0}
Returned reload_config = Unit {0}
Returned (remove_network id) = Unit {0}
Returned remove_all_networks = Unit {0}
Returned (select_network id) = SelectResult

-- What the method gives for an answer of its channel's type: `request.await?` in `request`.
abbrev pub read_unit : Answer → Option (ClientResult (Unit {0}))
read_unit (finished r) = some r
read_unit _ = none

unfoldable pub receive : (k : Call) → Answer → Option (ClientResult (Returned k))
receive (send_custom custom) a = elim a [ text r ↦ some r | _ ↦ none ]
receive get_scan a = elim a [ scan_is r ↦ some r | _ ↦ none ]
receive get_networks a = elim a [ networks_are r ↦ some r | _ ↦ none ]
receive get_status a = elim a [ status_is r ↦ some r | _ ↦ none ]
receive add_network a = elim a [ network_id_is r ↦ some r | _ ↦ none ]
receive (set_network_psk id psk) a = read_unit a
receive (set_network_ssid id ssid) a = read_unit a
receive (set_network_bssid id bssid) a = read_unit a
receive (set_network_keymgmt id mgmt) a = read_unit a
receive save_config a = read_unit a
receive reload_config a = read_unit a
receive (remove_network id) a = read_unit a
receive remove_all_networks a = read_unit a
receive (select_network id) a = elim a [ selected r ↦ some r | _ ↦ none ]
