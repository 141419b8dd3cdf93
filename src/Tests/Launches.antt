-- ===== src/Tests/Launches.antt =====
-- The example of a station, examples/wifi-sta.rs, from `main` to the start of the loop.
use wifi_ctrl.Prelude.{ℕ, List, [], ◌∷◌, ◌++◌, some, ◌≡◌, refl, arith}
use wifi_ctrl.Text.{codes}
use wifi_ctrl.Text.Number.{parse_unsigned, parse_digits}
use wifi_ctrl.Text.Trim.{trim_start, trim_end}
use wifi_ctrl.Examples.{NetworkInterface}
use wifi_ctrl.Examples.Listed.{Chosen, PathFor}
use wifi_ctrl.Examples.Sta.{path_front, main, app}
use wifi_ctrl.Examples.Sta.Starts.{main-launches}
use wifi_ctrl.Socket.World.{broadcast}
use wifi_ctrl.Sta.Calls.{Call, build_request}
use wifi_ctrl.Sta.Client.{Broadcast, is_shutdown, Request}
use wifi_ctrl.Sta.Script.{ask, shut_down, finish, Launching, requests_of, launch}
use wifi_ctrl.Sta.Setup.{WifiStation}
use wifi_ctrl.Sta.Start.{Startup, start}
use wifi_ctrl.Sta.Start.Requeue.{Opens}
use wifi_ctrl.Sta.Run.{enter}
use wifi_ctrl.Socket.Open.{receives, connects}
use wifi_ctrl.Socket.Waits.{now, put_off}
use wifi_ctrl.Tests.Bounded.{
  Held, bounded, bounded-IsMpsc, maker, maker-IsMaker, senders, senders-IsMaker,
}
use wifi_ctrl.Tests.Runner.{small, fresh_world}

abbrev interfaces : List NetworkInterface
interfaces =
    (record { index = 3; name = codes "wlan0" })
    ∷ (record { index = 1; name = codes "lo" })
    ∷ (record { index = 2; name = codes "eth0" })
    ∷ []

-- The scan is put off while the first socket opens.
abbrev scan_early : Startup
scan_early = record small {
  happenings = receives (some (Request.scan 0)) ∷ connects ∷ [];
  event_happenings = connects ∷ [];
}

scan_early-Opens : Opens scan_early (Request.scan 0 ∷ []) []
unfolding is_shutdown
scan_early-Opens = record {
  bound_is = refl;
  waits = put_off refl now;
  event_bound_is = refl;
  event_waits = now;
  attached_is = (6, refl);
}

abbrev waiting_for_scan : Launching
waiting_for_scan =
    Launching.put_off Call.get_scan (λ scan. ask Call.get_networks (λ networks. shut_down finish))

main-launches_example :
    (itf : NetworkInterface) × (st : WifiStation (Held Request) ℕ) × (main
        (maker Request)
        senders
        (some interfaces)
        (some (codes " 2\r"))
        (some [])
      ≡ some st)
    × Chosen interfaces 2 itf
    × PathFor (path_front ++ itf.name) [] st.socket_path
    × (ch : Held Request) × ((bounded Request).queue ch ≡ requests_of waiting_for_scan)
    × (enter (start (bounded Request) st.socket_path scan_early st.request_channel) fresh_world 1
        ≡ some (launch waiting_for_scan ch (broadcast Broadcast.ready fresh_world).1).system)
unfolding trim_start trim_end parse_unsigned parse_digits app build_request
main-launches_example =
    main-launches (bounded Request) (maker Request) senders waiting_for_scan fresh_world interfaces
      (codes " 2\r") [] 2 scan_early (Request.scan 0 ∷ []) [] (bounded-IsMpsc Request)
      (maker-IsMaker Request) senders-IsMaker (omega arith) (omega arith) refl (omega arith)
      scan_early-Opens refl refl
