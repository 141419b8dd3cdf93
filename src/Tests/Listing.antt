-- ===== src/Tests/Listing.antt =====
-- A supplicant that knows one network.
use wifi_ctrl.Prelude.{[], ◌∷◌, ok, if◌then◌else◌, length, ◌≡◌, refl}
use wifi_ctrl.Text.{Bytes, codes, bytes_eq, split, skip_one}
use wifi_ctrl.Text.Trim.{trim_end_matches}
use wifi_ctrl.Text.Utf8.{from_utf8}
use wifi_ctrl.Socket.World.{Peer, readable}
use wifi_ctrl.Socket.Handle.{request, send, wait_reply, parse_resp}
use wifi_ctrl.Sta.Listed.{Listed, request_results-Listed}
use wifi_ctrl.Sta.Networks.{as_text, request_results}
use wifi_ctrl.Sta.Station.Balance.{StaWorld}

abbrev listing : Bytes
listing = codes "network id / ssid / bssid / flags\n0\thome\tany\t[CURRENT]"

abbrev supplicant : Peer
supplicant [] = record { written = ok 0; arrivals = []; window = readable }
supplicant (cmd ∷ log) = record {
  written = ok (length cmd);
  arrivals = (if bytes_eq cmd (codes "LIST_NETWORKS") then listing else codes "\"home\"") ∷ [];
  window = readable;
}

abbrev idle_world : StaWorld
idle_world = record { inbox = []; window = readable; sent = []; answers = []; broadcasts = [] }

abbrev asked_world : StaWorld
asked_world = record idle_world { sent = codes "LIST_NETWORKS" ∷ [] }

listing_reply :
    request 10240 supplicant (codes "LIST_NETWORKS") as_text idle_world
    ≡ (ok (ok listing), asked_world)
unfolding request send wait_reply parse_resp from_utf8 trim_end_matches bytes_eq
listing_reply = refl

request_results-Listed_example :
    Listed 10240 supplicant
      (skip_one (split b'\n' listing))
      []
      asked_world
      (request_results 10240 supplicant idle_world)
request_results-Listed_example =
    request_results-Listed 10240 supplicant idle_world asked_world listing listing_reply
