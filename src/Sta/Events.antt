-- ===== src/Sta/Events.antt =====
-- src/sta/event_socket.rs: the events that the supplicant sends unasked.
pub mod Classified
use wifi_ctrl.Prelude.{◌&&◌, if◌then◌else◌, take}
use wifi_ctrl.Text.{Bytes, codes, contains, ends_with}
use wifi_ctrl.Text.Trim.{trim_end}
use wifi_ctrl.Text.Utf8.{from_utf8_lossy}

pub data Event : Type 0 where
  scan_complete scan_failed connected disconnected network_not_found wrong_psk : Event
  unknown : Bytes → Event

abbrev classify : Bytes → Event
classify data_str =
    if ends_with (trim_end data_str) (codes "CTRL-EVENT-SCAN-RESULTS")
    then scan_complete
    else if contains data_str (codes "CTRL-EVENT-SCAN-FAILED")
    then scan_failed
    else if contains data_str (codes "CTRL-EVENT-CONNECTED")
    then connected
    else if contains data_str (codes "CTRL-EVENT-DISCONNECTED")
    then disconnected
    else if contains data_str (codes "CTRL-EVENT-NETWORK-NOT-FOUND")
    then network_not_found
    else if contains data_str (codes "CTRL-EVENT-SSID-TEMP-DISABLED")
        && contains data_str (codes "reason=WRONG_KEY")
    then wrong_psk
    else unknown (trim_end data_str)

-- `EventSocket::recv` on a datagram; the socket's buffer has 1024 bytes.
unfoldable pub read_event : Bytes → Event
read_event datagram = classify (from_utf8_lossy (take 1024 datagram))
