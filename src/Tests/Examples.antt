-- ===== src/Tests/Examples.antt =====
-- The example of a station, examples/wifi-sta.rs, with daemons that answer all commands alike.
use wifi_ctrl.Prelude.{false, List, [], ◌∷◌, none, some, Result, ok, err, ◌≡◌, ◌⊎◌, refl}
use wifi_ctrl.Prelude.Sorting.{sort_by}
use wifi_ctrl.Text.{codes, find_after, strip_prefix, bytes_eq, lines, split}
use wifi_ctrl.Text.Trim.{trim_end, trim_end_matches}
use wifi_ctrl.Text.Utf8.{from_utf8, from_utf8_lossy}
use wifi_ctrl.Errors.{SocketError, failed}
use wifi_ctrl.Examples.Sta.{app}
use wifi_ctrl.Examples.Sta.Ends.{app-Runner, app-ends}
use wifi_ctrl.Socket.Channel.{Receives}
use wifi_ctrl.Socket.Channel.Oneshot.{find_answer, outcome_of}
use wifi_ctrl.Socket.Handle.{request as ask_daemon, parse_resp, command_matching}
use wifi_ctrl.Socket.World.{Peer}
use wifi_ctrl.Sta.Calls.{Call, build_request, receive}
use wifi_ctrl.Sta.Client.{Request, scan_is, networks_are}
use wifi_ctrl.Sta.Events.{read_event}
use wifi_ctrl.Sta.Loop.{step, no_pending}
use wifi_ctrl.Sta.Networks.{request_results, request_ssids}
use wifi_ctrl.Sta.Scan.{vec_from_str, from_lines, sort_by_signal}
use wifi_ctrl.Sta.Script.{
  ask, shut_down, finish, at, done, Program, calls, answered, failed as call_failed, stops_runner,
  finishes, serves, Moves, none_yet, further, no_call, launch,
}
use wifi_ctrl.Sta.Script.Ends.{Runner}
use wifi_ctrl.Sta.Station.{Pending, handle_event, handle_request, await_scan, answer_all}
use wifi_ctrl.Sta.System.{looping, returned, take, hear, call_result}
use wifi_ctrl.Tests.Bounded.{Held, bounded, bounded-IsMpsc}
use wifi_ctrl.Tests.Runner.{ok_peer, settings, fresh_world}

abbrev fail_peer : Peer
fail_peer log = record (ok_peer log) { arrivals = codes "FAIL\n" ∷ [] }

-- The scan is refused, and `app` has ended with the error.
abbrev refused_scan : Program (Held Request)
refused_scan = record {
  app = done (err failed);
  system = record {
    ch = (32, []);
    phase = looping no_pending;
    world = record fresh_world {
      sent = codes "SCAN" ∷ [];
      answers = (0, scan_is (err failed)) ∷ [];
    };
    fresh = 1;
  };
  ended = none;
}

scan_refused :
    Moves
      (bounded Request)
      settings
      fail_peer
      (launch (no_call app) (32, []) fresh_world)
      refused_scan
unfolding app build_request step handle_request command_matching parse_resp from_utf8
    trim_end_matches bytes_eq await_scan call_result receive find_answer outcome_of
scan_refused =
    further
      (further
        (further none_yet (
          calls Call.get_scan (λ scan. ask Call.get_networks (λ networks. shut_down finish))
            (32, Request.scan 0 ∷ []) refl (λ e. cc) refl))
        (serves _ (take no_pending (Request.scan 0) (32, []) refl refl) tt))
      (call_failed Call.get_scan 0 (λ scan. ask Call.get_networks (λ networks. shut_down finish))
        failed refl refl)

app-Runner_example : Runner (bounded Request) false none refused_scan.system
app-Runner_example =
    app-Runner (bounded Request) (bounded-IsMpsc Request) settings fail_peer (no_call app) (32, [])
      fresh_world refused_scan refl refl scan_refused

-- A daemon that takes the scan and has no results and no networks.
abbrev scanning : Pending
scanning = record { scan_requests = 0 ∷ []; select_request = none }

abbrev all_done : Program (Held Request)
all_done = record {
  app = done (ok tt);
  system = record {
    ch = (32, Request.shutdown ∷ []);
    phase = looping no_pending;
    world = record fresh_world {
      sent = codes "LIST_NETWORKS" ∷ codes "SCAN_RESULTS" ∷ codes "SCAN" ∷ [];
      answers = (1, networks_are (ok [])) ∷ (0, scan_is (ok [])) ∷ [];
    };
    fresh = 2;
  };
  ended = none;
}

-- The scan has its answer.
abbrev scanned : Program (Held Request)
scanned = record {
  app = at (ask Call.get_networks (λ networks. shut_down finish));
  system = record {
    ch = (32, []);
    phase = looping no_pending;
    world = record fresh_world {
      sent = codes "SCAN_RESULTS" ∷ codes "SCAN" ∷ [];
      answers = (0, scan_is (ok [])) ∷ [];
    };
    fresh = 1;
  };
  ended = none;
}

scan_run :
    Moves (bounded Request) settings ok_peer (launch (no_call app) (32, []) fresh_world) scanned
unfolding app build_request step handle_request handle_event command_matching ask_daemon parse_resp
    from_utf8 from_utf8_lossy trim_end trim_end_matches bytes_eq await_scan answer_all call_result
    receive find_answer outcome_of read_event find_after strip_prefix vec_from_str lines from_lines
    sort_by_signal sort_by request_results request_ssids split
scan_run =
    further
      (further
        (further
          (further none_yet (
            calls Call.get_scan (λ scan. ask Call.get_networks (λ networks. shut_down finish))
              (32, Request.scan 0 ∷ []) refl (λ e. cc) refl))
          (serves _ (take no_pending (Request.scan 0) (32, []) refl refl) tt))
        (serves _ (hear scanning (ok (codes "<3>CTRL-EVENT-SCAN-RESULTS ")) refl) tt))
      (answered Call.get_scan 0 (λ scan. ask Call.get_networks (λ networks. shut_down finish)) []
        refl refl)

app_run :
    Moves (bounded Request) settings ok_peer (launch (no_call app) (32, []) fresh_world) all_done
unfolding app build_request step handle_request handle_event command_matching ask_daemon parse_resp
    from_utf8 from_utf8_lossy trim_end trim_end_matches bytes_eq await_scan answer_all call_result
    receive find_answer outcome_of read_event find_after strip_prefix vec_from_str lines from_lines
    sort_by_signal sort_by request_results request_ssids split
app_run =
    further
      (further
        (further
          (further
            (further scan_run (
              calls Call.get_networks (λ networks. shut_down finish) (32, Request.networks 1 ∷ [])
                refl (λ e. cc) refl))
            (serves _ (take no_pending (Request.networks 1) (32, []) refl refl) tt))
          (answered Call.get_networks 1 (λ networks. shut_down finish) [] refl refl))
        (stops_runner finish (32, Request.shutdown ∷ []) refl (λ e. cc) refl))
      (finishes refl)

bounded-Receives : Receives (bounded Request)
bounded-Receives = record { recv_some = recv_held }
  where
    recv_held :
        (r : Request) (rs : List Request) (ch : Held Request)
        → ch.1 ≡ r ∷ rs
        → (x : Request × Held Request) × ((bounded Request).recv ch ≡ some x)
    recv_held r rs (n, []) e = absurd cc
    recv_held r rs (n, q ∷ qs) e = ((q, (n, qs)), refl)

app-ends_example :
    ((t : Program (Held Request)) × Moves (bounded Request) settings ok_peer all_done t
      × (t.ended ≡ some (ok tt))
      × (t.system.world ≡ all_done.system.world))
    ⊎ ((x : Result SocketError (Unit {0})) × (all_done.system.phase ≡ returned x))
    ⊎ ((x : Result SocketError (Unit {0})) × (all_done.ended ≡ some x))
app-ends_example =
    app-ends (bounded Request) (bounded-IsMpsc Request) settings ok_peer (no_call app) (32, [])
      fresh_world all_done bounded-Receives refl refl refl app_run refl
