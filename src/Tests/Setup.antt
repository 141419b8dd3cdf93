-- ===== src/Tests/Setup.antt =====
-- A station with room for 8 requests, changed by setters.
use wifi_ctrl.Prelude.{ℕ, List, [], ◌∷◌, some, ◌≡◌, arith}
use wifi_ctrl.Text.{codes}
use wifi_ctrl.Socket.Channel.Make.{StartsAt}
use wifi_ctrl.Sta.Client.{Request}
use wifi_ctrl.Sta.Setup.{
  WifiSetup, Change, socket_path, select_timeout, complete, with_capacities, change_all,
  path_default_server, default_select_timeout, default_command_timeout,
}
use wifi_ctrl.Sta.Setup.Starts.{changed, with_capacities-starts}
use wifi_ctrl.Sta.Start.{start}
use wifi_ctrl.Tests.Bounded.{
  Held, bounded, bounded-IsMpsc, maker, maker-IsMaker, senders, senders-IsMaker,
}
use wifi_ctrl.Tests.Runner.{small, small-Opens}

abbrev changes : List Change
changes = socket_path (codes "/run/wlan0") ∷ select_timeout 5000 ∷ select_timeout 7000 ∷ []

with_capacities-starts_example :
    (st : WifiSetup (Held Request) ℕ) × (with_capacities (maker Request) senders 8 4 ≡ some st)
    × (complete (change_all changes st)
        ≡ changed changes (record {
          socket_path = path_default_server;
          request_channel = st.wifi.request_channel;
          broadcast_sender = st.wifi.broadcast_sender;
          select_timeout = default_select_timeout;
          command_timeout = default_command_timeout;
        }))
    × StartsAt (bounded Request) 8 (Request.scan 1 ∷ Request.status 2 ∷ []) (
        start
          (bounded Request)
          (complete (change_all changes st)).socket_path
          small
          (complete (change_all changes st)).request_channel)
with_capacities-starts_example =
    with_capacities-starts (maker Request) senders (bounded Request) 8 4 changes small
      (Request.scan 1 ∷ []) (Request.status 2 ∷ []) (bounded-IsMpsc Request) (maker-IsMaker Request)
      senders-IsMaker (omega arith) (omega arith) (omega arith) (omega arith) small-Opens
