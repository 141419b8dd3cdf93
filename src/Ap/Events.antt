-- ===== src/Ap/Events.antt =====
-- `EventSocket::recv` of src/ap/event_socket.rs.
pub mod Addresses
use wifi_ctrl.Prelude.{none, some, take}
use wifi_ctrl.Text.{Bytes, codes, find_after}
use wifi_ctrl.Text.Trim.{trim}
use wifi_ctrl.Text.Utf8.{from_utf8_lossy}

pub data Event : Type 0 where
  ap_sta_connected ap_sta_disconnected unknown : Bytes → Event

abbrev pub classify : Bytes → Event
classify data_str = elim (find_after (codes "AP-STA-DISCONNECTED") data_str) [
  | some mac ↦ ap_sta_disconnected (trim mac)
  | none ↦ elim (find_after (codes "AP-STA-CONNECTED") data_str) [
    | some mac ↦ ap_sta_connected (trim mac)
    | none ↦ unknown data_str
  ]
]

-- On a datagram; the socket's buffer has 1024 bytes.
unfoldable pub read_event : Bytes → Event
read_event datagram = classify (from_utf8_lossy (take 1024 datagram))
