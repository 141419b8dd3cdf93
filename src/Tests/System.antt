-- ===== src/Tests/System.antt =====
-- A client and the runner, with a daemon that answers "OK" to everything and a channel for two requests.
use wifi_ctrl.Prelude.{ℕ, ◌<◌, [], ◌∷◌, ◌++◌, some, ok, ◌≡◌, refl, inl, count, ◌+◌, arith, none}
use wifi_ctrl.Text.{codes, find_after, strip_prefix, bytes_eq}
use wifi_ctrl.Text.Trim.{trim_end, trim_end_matches}
use wifi_ctrl.Text.Utf8.{from_utf8, from_utf8_lossy}
use wifi_ctrl.Socket.Handle.{request as ask, parse_resp, command_matching}
use wifi_ctrl.Sta.Calls.{Call, build_request}
use wifi_ctrl.Sta.Client.{Request, Broadcast, is_shutdown}
use wifi_ctrl.Sta.Events.{Event, read_event}
use wifi_ctrl.Sta.Loop.{event, request, select_timeout, running, step, run_internal, no_pending}
use wifi_ctrl.Sta.Loop.Drained.{run_internal-drained}
use wifi_ctrl.Sta.Loop.Settled.{channels}
use wifi_ctrl.Sta.Station.{Pending, handle_request, await_scan}
use wifi_ctrl.Sta.Station.Balance.{StaWorld, answered}
use wifi_ctrl.Sta.System.{dropped, System, Step, call, drop, Reach, here, next, begin}
use wifi_ctrl.Socket.Open.{receives, connects}
use wifi_ctrl.Socket.Waits.{now, put_off}
use wifi_ctrl.Sta.Run.{enter, run-Once}
use wifi_ctrl.Sta.Start.{Startup, start}
use wifi_ctrl.Sta.Start.Requeue.{Opens}
use wifi_ctrl.Sta.System.Once.{Once}
use wifi_ctrl.Sta.System.Refines.{Step-Serves}
use wifi_ctrl.Service.{Serves}
use wifi_ctrl.Sta.System.Told.{Told, Reach-Told}
use wifi_ctrl.Sta.System.View.{service}
use wifi_ctrl.Tests.Bounded.{Held, bounded, bounded-IsMpsc}
use wifi_ctrl.Tests.Runner.{ok_peer, settings, fresh_world}

abbrev start_system : System (Held Request)
start_system = begin (2, []) fresh_world

-- A scan was called for.
abbrev called : System (Held Request)
called = record start_system { ch = (2, Request.scan 0 ∷ []); fresh = 1 }

scan_call : Step (bounded Request) settings ok_peer start_system called
unfolding build_request
scan_call = call Call.get_scan (2, Request.scan 0 ∷ []) (λ e. cc) refl

-- The runner is dropped before it takes the scan.
Reach-Told_example : Told (bounded Request) 0 (record called { phase = dropped })
Reach-Told_example =
    Reach-Told (bounded Request) (bounded-IsMpsc Request) settings ok_peer (2, []) fresh_world
      (record called { phase = dropped }) 0 refl refl (next (next here scan_call) drop)
      (omega arith)

Step-Serves_example :
    Serves (service (bounded Request) start_system) (service (bounded Request) called)
Step-Serves_example =
    Step-Serves (bounded Request) (bounded-IsMpsc Request) settings ok_peer start_system called
      scan_call

-- The scan that was taken, and the daemon's "OK".
abbrev scanning : Pending
scanning = record { scan_requests = 0 ∷ []; select_request = none }

abbrev scanning_world : StaWorld
scanning_world = record fresh_world { sent = codes "SCAN" ∷ [] }

scan_run :
    run_internal settings ok_peer (request (some (Request.scan 0)) ∷ []) no_pending fresh_world
    ≡ (ok (running scanning), scanning_world)
unfolding run_internal step handle_request command_matching ask parse_resp from_utf8
    trim_end_matches bytes_eq await_scan
scan_run = refl

scan_fails : read_event (codes "CTRL-EVENT-SCAN-FAILED ret=-16") ≡ Event.scan_failed
unfolding read_event from_utf8_lossy trim_end find_after strip_prefix
scan_fails = refl

run_internal-drained_example :
    (v : StaWorld) × (run_internal settings ok_peer
        ((request (some (Request.scan 0)) ∷ [])
          ++ event (ok (codes "CTRL-EVENT-SCAN-FAILED ret=-16")) ∷ select_timeout ∷ [])
        no_pending
        fresh_world
      ≡ (ok (running no_pending), v))
    × (answered 0 v
        ≡ answered 0 fresh_world + count 0 (channels (request (some (Request.scan 0)) ∷ [])))
run_internal-drained_example =
    run_internal-drained settings ok_peer 0 (request (some (Request.scan 0)) ∷ [])
      (codes "CTRL-EVENT-SCAN-FAILED ret=-16") scanning fresh_world scanning_world scan_run
      (inl scan_fails)

-- A scan and a status were asked for while the sockets opened.
abbrev early : Startup
early = record {
  bound = ok tt;
  happenings = receives (some (Request.scan 0)) ∷ connects ∷ [];
  event_bound = ok tt;
  event_happenings = receives (some (Request.status 1)) ∷ connects ∷ [];
  attached = ok 6;
}

early-Opens : Opens early (Request.scan 0 ∷ []) (Request.status 1 ∷ [])
unfolding is_shutdown
early-Opens = record {
  bound_is = refl;
  waits = put_off refl now;
  event_bound_is = refl;
  event_waits = put_off refl now;
  attached_is = (6, refl);
}

run-Once_example :
    (s : System (Held Request)) × (enter
        (start (bounded Request) (codes "wlan0") early (2, []))
        fresh_world
        2
      ≡ some s)
    × (s.world.broadcasts ≡ Broadcast.ready ∷ [])
    × ((t : System (Held Request)) (c : ℕ)
        → Reach (bounded Request) settings ok_peer s t
        → Once (bounded Request) c t × (c < t.fresh → Told (bounded Request) c t))
run-Once_example =
    run-Once (bounded Request) settings ok_peer (codes "wlan0") early (2, []) (Request.scan 0 ∷ [])
      (Request.status 1 ∷ []) fresh_world 2 (bounded-IsMpsc Request) early-Opens refl (omega arith)
      (λ c. ground arith) (λ c. refl)
