-- ===== src/Tests/Events.antt =====
-- Events of both daemons, and a configuration of the access point.
use wifi_ctrl.Prelude.{[], ◌∷◌, ◌++◌, none, ok, ◌≡◌, refl, arith}
use wifi_ctrl.Text.{
  Bytes, codes, find_after, strip_prefix, lines, split_once, rsplit_once, bytes_eq,
}
use wifi_ctrl.Text.Contains.{Within, contains_iff}
use wifi_ctrl.Text.Number.{pos, parse_unsigned, parse_signed, parse_digits}
use wifi_ctrl.Text.Trim.{trim_start, trim_end}
use wifi_ctrl.Text.Utf8.{IsUtf8, from_utf8}
use wifi_ctrl.Config.Deserialize.{
  only, deserialize_string, deserialize_signed, deserialize_option, forward_to_from_str,
}
use wifi_ctrl.Config.Struct.{check_entries, entry, required, defaulted}
use wifi_ctrl.Config.Table.{parse_table, fill, parse_line, push_value}
use wifi_ctrl.Config.Unprintf.{unprintf, unescape}
use wifi_ctrl.Socket.Logged.{Logged}
use wifi_ctrl.Ap.Heard.{heard as ap_heard, broadcasts as ap_broadcasts, run_internal-heard}
use wifi_ctrl.Ap.Runner.{run_internal as ap_run_internal}
use wifi_ctrl.Ap.Types.{Config, config_from_response, build_config}
use wifi_ctrl.Ap.Types.Lines.{SaidBy, config_from_response-SaidBy}
use wifi_ctrl.Sta.Client.{Broadcast, selected, success}
use wifi_ctrl.Sta.Events.Classified.{step-connected}
use wifi_ctrl.Sta.Loop.{event, running, step, run_internal}
use wifi_ctrl.Sta.Loop.Heard.{heard, broadcasts, run_internal-told}
use wifi_ctrl.Tests.AccessPoint.{quiet_world, ap_wakes}
use wifi_ctrl.Tests.Runner.{ok_peer, settings, wakes, fresh_world, selecting_nine}

run_internal-heard_example :
    Logged ap_broadcasts
      (ap_heard ap_wakes)
      quiet_world.broadcasts
      (ap_run_internal (λ t. t) ok_peer ap_wakes quiet_world)
run_internal-heard_example = run_internal-heard (λ t. t) ok_peer ap_wakes quiet_world

run_internal-told_example :
    Logged broadcasts
      (heard wakes)
      fresh_world.broadcasts
      (run_internal settings ok_peer wakes selecting_nine fresh_world)
run_internal-told_example = run_internal-told settings ok_peer wakes selecting_nine fresh_world

-- A network's name that is the text of an event.
abbrev name_front : Bytes
name_front = codes "<3>Trying to associate with 02:00:00:00:00:00 (SSID='"

abbrev name_back : Bytes
name_back = codes "' freq=2412 MHz)"

abbrev name_text : Bytes
name_text = name_front ++ (codes "CTRL-EVENT-CONNECTED" ++ name_back)

name_text-IsUtf8 : IsUtf8 name_text
unfolding from_utf8
name_text-IsUtf8 = refl

name_text_no_scan : ¬ Within (codes "CTRL-EVENT-SCAN-") name_text
unfolding find_after strip_prefix
name_text_no_scan x = let found = (contains_iff name_text (codes "CTRL-EVENT-SCAN-")).1 x in cc

step-connected_example : step settings ok_peer (event (ok name_text)) selecting_nine fresh_world ≡ (
  ok (running (record selecting_nine { select_request = none })),
  record fresh_world {
    answers = (9, selected (ok success)) ∷ [];
    broadcasts = Broadcast.connected ∷ [];
  },
)
step-connected_example =
    step-connected settings ok_peer name_front name_back selecting_nine fresh_world (omega arith)
      name_text-IsUtf8 name_text_no_scan

abbrev config_text : Bytes
config_text = codes "bssid=02:00:00:00:00:00\nssid=net\nwps_state=disabled\nkey_mgmt=N/A\n"

abbrev config_read : Config
config_read = record {
  bssid = codes "02:00:00:00:00:00";
  ssid = codes "net";
  wps_state = codes "disabled";
  wpa = pos 0;
  key_mgmt = none;
  group_cipher = none;
  rsn_pairwise_cipher = none;
  wpa_pairwise_cipher = none;
}

config_text_read : config_from_response (λ t. t) config_text ≡ ok config_read
unfolding config_from_response parse_table fill parse_line push_value lines trim_start trim_end
    split_once rsplit_once parse_unsigned parse_digits bytes_eq build_config check_entries
    deserialize_string unprintf only deserialize_option deserialize_signed forward_to_from_str
    parse_signed required defaulted entry from_utf8 unescape
config_text_read = refl

config_from_response-SaidBy_example : SaidBy config_text config_read
config_from_response-SaidBy_example =
    config_from_response-SaidBy (λ t. t) config_text config_read config_text_read
