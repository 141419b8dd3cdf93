-- ===== src/Sta/Fail.antt =====
-- What becomes of the reply "FAIL" where the parser of the response takes any text.
use wifi_ctrl.Prelude.{[], ok, ◌≡◌, refl}
use wifi_ctrl.Text.{Bytes, codes, lines}
use wifi_ctrl.Text.Trim.{trim_start_matches, trim_end_matches}
use wifi_ctrl.Text.Utf8.{from_utf8}
use wifi_ctrl.Config.Unprintf.{unprintf, unescape}
use wifi_ctrl.Socket.Handle.{response_text, parse_resp}
use wifi_ctrl.Sta.Networks.{as_text, parse_get_network}
use wifi_ctrl.Sta.Scan.{vec_from_str, from_lines, sort_by_signal}
use wifi_ctrl.Prelude.Sorting.{sort_by}

-- A datagram whose text is "FAIL" is not reported as `Failed` by the parsers of "SCAN_RESULTS",
-- "LIST_NETWORKS" and "GET_NETWORK": the scan is empty, the list of networks is the text "FAIL",
-- and so is the SSID.
pub parse_resp_fail :
    (d : Bytes)
    → response_text d ≡ ok (codes "FAIL")
    → (parse_resp vec_from_str d ≡ ok [])
      × (parse_resp as_text d ≡ ok (codes "FAIL"))
      × (parse_resp parse_get_network d ≡ ok (codes "FAIL"))
unfolding parse_resp
parse_resp_fail d h = (
  rw h (unfold vec_from_str lines from_lines sort_by_signal sort_by in refl),
  rw h refl,
  rw h (
      unfold parse_get_network unprintf unescape from_utf8 trim_start_matches trim_end_matches in
      refl),
)
