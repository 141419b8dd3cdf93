-- ===== src/Tests/Runner.antt =====
-- The socket and the station's loop, with a daemon that answers "OK" to everything.
use wifi_ctrl.Prelude.{ℕ, List, [], ◌∷◌, some, ok, err, ◌≡◌, ◌↔◌, refl, arith, length}
use wifi_ctrl.Text.{Bytes, codes}
use wifi_ctrl.Text.Trim.{trim_end_matches}
use wifi_ctrl.Text.Utf8.{from_utf8}
use wifi_ctrl.Errors.{other_kind, pending_select}
use wifi_ctrl.Socket.World.{Peer, readable}
use wifi_ctrl.Socket.Handle.{parse_resp}
use wifi_ctrl.Socket.Open.{connects, refused, receives, opened, wait_open}
use wifi_ctrl.Socket.Replies.{AnswersOnce, run_requests, run_requests_lem}
use wifi_ctrl.Socket.Waits.{Waits, now, put_off, wait_open-opened}
use wifi_ctrl.Sta.Client.{Request, success, selected, is_shutdown}
use wifi_ctrl.Sta.Events.{Event}
use wifi_ctrl.Sta.Loop.{Wake, event, request as request_wake, run_internal, no_pending}
use wifi_ctrl.Sta.Loop.Settled.{channels, Settled, run_internal-Settled}
use wifi_ctrl.Sta.Networks.{as_text}
use wifi_ctrl.Socket.Channel.Room.{Requeued}
use wifi_ctrl.Sta.Start.{Startup, start}
use wifi_ctrl.Sta.Start.Requeue.{Opens, start-resend}
use wifi_ctrl.Sta.Station.{Settings, Pending, handle_event, handle_request}
use wifi_ctrl.Sta.Station.Balance.{StaWorld}
use wifi_ctrl.Sta.Station.Select.{
  SelectAfter, After, handle_event-SelectAfter, handle_request-pending_select,
}
use wifi_ctrl.Tests.Bounded.{bounded, bounded-IsMpsc}
use wifi_ctrl.Tests.HexCodec.{codec}

-- The length of the last command sent.
abbrev last_length : List Bytes → ℕ
last_length [] = 0
last_length (cmd ∷ log) = length cmd

abbrev pub ok_peer : Peer
ok_peer log = record {
  written = ok (last_length log);
  arrivals = codes "OK\n" ∷ [];
  window = readable;
}

abbrev ok_peer_once : AnswersOnce ok_peer (λ log. codes "OK\n")
ok_peer_once = record {
  written_is = λ log cmd. refl;
  arrivals_is = λ log cmd. refl;
  window_is = λ log cmd. refl;
}

-- A socket on which the reply to an earlier command came too late.
abbrev late_world : StaWorld
late_world = record {
  inbox = codes "late\n" ∷ [];
  window = readable;
  sent = [];
  answers = [];
  broadcasts = [];
}

abbrev pub fresh_world : StaWorld
fresh_world = record late_world { inbox = [] }

run_requests_lem_example :
    ((run_requests 16 ok_peer as_text (codes "PING" ∷ codes "STATUS" ∷ []) late_world).0
      ≡ ok (ok (codes "late") ∷ ok (codes "OK") ∷ []))
    × ((run_requests 16 ok_peer as_text (codes "PING" ∷ codes "STATUS" ∷ []) late_world).1.inbox
        ≡ codes "OK\n" ∷ [])
unfolding parse_resp from_utf8 trim_end_matches
run_requests_lem_example =
    run_requests_lem 16 ok_peer (λ log. codes "OK\n") ok_peer_once as_text
      (codes "PING" ∷ codes "STATUS" ∷ []) late_world

wait_open-opened_example :
    (wait_open is_shutdown
        (codes "wlan0")
        (refused (record { kind = other_kind; code = 2 })
          ∷ receives (some (Request.scan 1))
          ∷ connects
          ∷ [])
        0
        []
      ≡ opened (Request.scan 1 ∷ []))
    ↔ Waits is_shutdown
        (refused (record { kind = other_kind; code = 2 })
          ∷ receives (some (Request.scan 1))
          ∷ connects
          ∷ [])
        (Request.scan 1 ∷ [])
wait_open-opened_example =
    wait_open-opened is_shutdown (codes "wlan0")
      (refused (record { kind = other_kind; code = 2 })
        ∷ receives (some (Request.scan 1))
        ∷ connects
        ∷ [])
      (Request.scan 1 ∷ [])

-- Two requests are put off, and the channel has room for one.
abbrev pub small : Startup
small = record {
  bound = ok tt;
  happenings = receives (some (Request.scan 1)) ∷ connects ∷ [];
  event_bound = ok tt;
  event_happenings = receives (some (Request.status 2)) ∷ connects ∷ [];
  attached = ok 6;
}

pub small-Opens : Opens small (Request.scan 1 ∷ []) (Request.status 2 ∷ [])
unfolding is_shutdown
small-Opens = record {
  bound_is = refl;
  waits = put_off refl now;
  event_bound_is = refl;
  event_waits = put_off refl now;
  attached_is = (6, refl);
}

start-resend_example :
    Requeued
      (bounded Request)
      (Request.scan 1 ∷ Request.status 2 ∷ [])
      (1, [])
      (start (bounded Request) (codes "wlan0") small (1, []))
start-resend_example =
    start-resend (bounded Request) (codes "wlan0") small (1, []) (Request.scan 1 ∷ [])
      (Request.status 2 ∷ []) (bounded-IsMpsc Request) small-Opens (omega arith)

abbrev pub settings : Settings
settings = record { select_timeout = 10; order = λ t. t; hex = codec }

abbrev pub wakes : List Wake
wakes =
    request_wake (some (Request.scan 7))
    ∷ request_wake (some (Request.save_config 8))
    ∷ event (ok (codes "<3>CTRL-EVENT-SCAN-RESULTS "))
    ∷ []

run_internal-Settled_example :
    Settled 7
      (channels wakes)
      fresh_world
      no_pending
      (run_internal settings ok_peer wakes no_pending fresh_world)
run_internal-Settled_example = run_internal-Settled 7 settings ok_peer wakes no_pending fresh_world

abbrev pub selecting_nine : Pending
selecting_nine = record {
  scan_requests = 4 ∷ 3 ∷ [];
  select_request = some (record { response = 9; timeout_after = 10 });
}

handle_event-SelectAfter_example :
    SelectAfter
      (some (ok success))
      selecting_nine
      fresh_world
      (handle_event settings ok_peer Event.connected selecting_nine fresh_world)
handle_event-SelectAfter_example =
    handle_event-SelectAfter settings ok_peer Event.connected selecting_nine fresh_world

handle_request-pending_select_example :
    After
      (λ p'. p'.select_request ≡ selecting_nine.select_request)
      (handle_request settings ok_peer (Request.scan 2) selecting_nine fresh_world)
    × (handle_request settings ok_peer (Request.select_network 5 1) selecting_nine fresh_world ≡ (
      ok selecting_nine,
      record fresh_world { answers = (1, selected (err pending_select)) ∷ [] },
    ))
handle_request-pending_select_example =
    handle_request-pending_select settings ok_peer (Request.scan 2) 5 1 selecting_nine
      (record { response = 9; timeout_after = 10 }) fresh_world refl
