-- ===== src/Tests/AccessPoint.antt =====
-- The access point, with a daemon that answers "OK" to everything.
use wifi_ctrl.Prelude.{ℕ, ◌≤◌, List, [], ◌∷◌, some, ok, err, ◌≡◌, refl, arith}
use wifi_ctrl.Text.{Bytes, codes, lines, bytes_eq, split_once, rsplit_once}
use wifi_ctrl.Text.Trim.{trim_start, trim_end, trim_end_matches}
use wifi_ctrl.Text.Number.{parse_unsigned, parse_digits}
use wifi_ctrl.Errors.{ConfigError}
use wifi_ctrl.Config.Table.{Table, parse_table, fill, parse_line, push_value, values_of}
use wifi_ctrl.Config.Struct.{field_type}
use wifi_ctrl.Socket.World.{readable}
use wifi_ctrl.Ap.Types.{status_from_response, config_from_response}
use wifi_ctrl.Ap.Client.{Request, is_shutdown}
use wifi_ctrl.Ap.Attach.{push_options, attach_command, retry_command, attach}
use wifi_ctrl.Ap.Start.{ApSettings, ApStartup, new_world, start_ap}
use wifi_ctrl.Ap.Start.Resend.{ApOpens, start_ap-resend}
use wifi_ctrl.Socket.Channel.Room.{Requeued}
use wifi_ctrl.Ap.Calls.{ApCall, build_ap_request}
use wifi_ctrl.Ap.System.{
  ApPhase, ApSystem, settle_ap, ApStep, call, take, drop, ApReach, here, next, begin_ap,
}
use wifi_ctrl.Service.{Serves}
use wifi_ctrl.Service.Fifo.{Queues, unordered}
use wifi_ctrl.Ap.System.Refines.{fifo, ApStep-Serves}
use wifi_ctrl.Ap.System.InOrder.{InOrder, ApReach-InOrder}
use wifi_ctrl.Ap.System.Told.{ApTold, ApReach-ApTold}
use wifi_ctrl.Tests.Bounded.{Held, bounded, bounded-IsMpsc}
use wifi_ctrl.Socket.Handle.{command_matching, parse_resp}
use wifi_ctrl.Socket.Open.{receives, connects}
use wifi_ctrl.Socket.Waits.{now, put_off}
use wifi_ctrl.Text.Utf8.{from_utf8}
use wifi_ctrl.Ap.Retries.{resent, Ended, retry_command-Ended}
use wifi_ctrl.Ap.Runner.{Wake, event_wake, request_wake, step, run_internal}
use wifi_ctrl.Ap.Served.{ApWorld, answered, channels, Served, run_internal-Served}
use wifi_ctrl.Ap.Unknown.{from_response-unknown}
use wifi_ctrl.Tests.Runner.{ok_peer}

abbrev pub quiet_world : ApWorld
quiet_world = record { inbox = []; window = readable; sent = []; answers = []; broadcasts = [] }

abbrev pub ap_wakes : List Wake
ap_wakes =
    request_wake (some (Request.enable 3))
    ∷ event_wake (ok (codes "<3>AP-STA-CONNECTED cc:7b:5c:1a:d2:21"))
    ∷ request_wake (some (Request.status 5))
    ∷ []

run_internal-Served_example :
    Served
      (channels ap_wakes)
      (answered quiet_world)
      (run_internal (λ t. t) ok_peer ap_wakes quiet_world)
run_internal-Served_example = run_internal-Served (λ t. t) ok_peer ap_wakes quiet_world

retry_command-Ended_example :
    (k : ℕ) × (k ≤ 2)
    × ((retry_command 1024 ok_peer (codes "ATTACH") 2 quiet_world).1.sent
        ≡ resent (codes "ATTACH") k [])
    × Ended 1024 ok_peer
        (codes "ATTACH")
        2
        quiet_world
        (retry_command 1024 ok_peer (codes "ATTACH") 2 quiet_world)
        k
retry_command-Ended_example = retry_command-Ended 1024 ok_peer (codes "ATTACH") 2 quiet_world

abbrev two_links : Bytes
two_links = codes "link[0]=a\nlink[1]=b"

abbrev two_links_table : Table
two_links_table = (record { key = codes "link"; values = codes "a" ∷ codes "b" ∷ [] }) ∷ []

parse_table-two_links : parse_table two_links ≡ ok two_links_table
unfolding parse_table fill parse_line push_value lines trim_start trim_end split_once rsplit_once
    parse_unsigned parse_digits bytes_eq
parse_table-two_links = refl

from_response-unknown_example :
    ((x : ConfigError) × (status_from_response (λ t. t) two_links ≡ err x))
    × ((x : ConfigError) × (config_from_response (λ t. t) two_links ≡ err x))
unfolding values_of field_type bytes_eq
from_response-unknown_example =
    from_response-unknown (λ t. t) two_links two_links_table (codes "link") (λ t k. refl)
      parse_table-two_links (omega arith) refl refl

abbrev ap_settings : ApSettings
ap_settings = record {
  socket_path = codes "wlan1";
  attach_options = codes "probe_rx_events=1" ∷ [];
  attach_retries = 3;
}

-- One request is put off for each socket.
abbrev pub roomy : ApStartup
roomy = record {
  event_bound = ok tt;
  event_happenings = receives (some (Request.status 1)) ∷ connects ∷ [];
  event_peer = ok_peer;
  bound = ok tt;
  happenings = receives (some (Request.enable 2)) ∷ connects ∷ [];
}

attach-roomy :
    (attach 1024 roomy.event_peer ap_settings.attach_options ap_settings.attach_retries new_world).0
    ≡ ok tt
unfolding attach retry_command attach_command push_options command_matching parse_resp from_utf8
    trim_end_matches bytes_eq
attach-roomy = refl

abbrev roomy-ApOpens : ApOpens ap_settings roomy (Request.status 1 ∷ []) (Request.enable 2 ∷ [])
unfolding is_shutdown
roomy-ApOpens = record {
  event_bound_is = refl;
  event_waits = put_off refl now;
  attached_is = attach-roomy;
  bound_is = refl;
  waits = put_off refl now;
}

start_ap-resend_example :
    Requeued
      (bounded Request)
      (Request.status 1 ∷ Request.enable 2 ∷ [])
      (2, [])
      (start_ap (bounded Request) ap_settings roomy (2, []))
start_ap-resend_example =
    start_ap-resend (bounded Request) ap_settings roomy (2, []) (Request.status 1 ∷ [])
      (Request.enable 2 ∷ []) (bounded-IsMpsc Request) roomy-ApOpens (omega arith)

abbrev start_ap_system : ApSystem (Held Request)
start_ap_system = begin_ap (2, []) quiet_world

-- The access point was to be enabled, and the loop has taken this request.
abbrev enabled_ap_system : ApSystem (Held Request)
enabled_ap_system =
    settle_ap (record start_ap_system { fresh = 1 })
      (step (λ t. t) ok_peer (request_wake (some (Request.enable 0))) quiet_world)

enable_reached : ApReach (bounded Request) (λ t. t) ok_peer start_ap_system enabled_ap_system
unfolding build_ap_request
enable_reached =
    next (next here (call ApCall.enable (2, Request.enable 0 ∷ []) (λ e. cc) refl))
      (take (Request.enable 0) (2, []) refl refl)

enable_call :
    ApStep
      (bounded Request)
      (λ t. t)
      ok_peer
      start_ap_system
      (record start_ap_system { ch = (2, Request.enable 0 ∷ []); fresh = 1 })
unfolding build_ap_request
enable_call = call ApCall.enable (2, Request.enable 0 ∷ []) (λ e. cc) refl

abbrev enabling : ApSystem (Held Request)
enabling = record start_ap_system { ch = (2, Request.enable 0 ∷ []); fresh = 1 }

ApStep-Serves_example :
    Queues (fifo (bounded Request) start_ap_system) (fifo (bounded Request) enabling)
    × Serves
        (unordered (fifo (bounded Request) start_ap_system))
        (unordered (fifo (bounded Request) enabling))
ApStep-Serves_example =
    ApStep-Serves (bounded Request) (bounded-IsMpsc Request) (λ t. t) ok_peer start_ap_system
      enabling enable_call

ApReach-InOrder_example : InOrder (bounded Request) enabled_ap_system
ApReach-InOrder_example =
    ApReach-InOrder (bounded Request) (bounded-IsMpsc Request) (λ t. t) ok_peer (2, []) quiet_world
      enabled_ap_system refl refl enable_reached

-- The runner is dropped before it takes a call's request.
abbrev abandoned : ApSystem (Held Request)
abandoned = record start_ap_system {
  ch = (2, Request.enable 0 ∷ []);
  fresh = 1;
  phase = ApPhase.dropped;
}

abandoned_reached : ApReach (bounded Request) (λ t. t) ok_peer start_ap_system abandoned
unfolding build_ap_request
abandoned_reached =
    next (next here (call ApCall.enable (2, Request.enable 0 ∷ []) (λ e. cc) refl)) drop

ApReach-ApTold_example : ApTold (bounded Request) 0 abandoned
ApReach-ApTold_example =
    ApReach-ApTold (bounded Request) (bounded-IsMpsc Request) (λ t. t) ok_peer (2, []) quiet_world
      abandoned 0 refl refl abandoned_reached (omega arith)
