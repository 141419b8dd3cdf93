-- ===== src/Ap/Heard.antt =====
-- `run_internal` of src/ap/mod.rs: what is broadcast, and in what order.
use wifi_ctrl.Prelude.{onto, ℕ, List, [], ◌∷◌, ◌++◌, none, some, ok, err, ◌≡◌, refl}
use wifi_ctrl.Text.{Bytes, codes}
use wifi_ctrl.Config.Table.{Table}
use wifi_ctrl.Socket.Handle.{request, command, is_ok}
use wifi_ctrl.Socket.Logged.{Logged, Logged-all, then_with-Logged, then_with-pure}
use wifi_ctrl.Socket.Quiet.{request-IsQuiet, command_matching-IsQuiet}
use wifi_ctrl.Socket.Untold.{IsUntold, reply-IsUntold}
use wifi_ctrl.Socket.World.{Peer, then_with, ◌>>=◌, pure, answer}
use wifi_ctrl.Ap.Client.{Request, Broadcast, text, status_is, config_is, finished}
use wifi_ctrl.Ap.Events.{Event, read_event}
use wifi_ctrl.Ap.Runner.{
  Ap, buffer_size, as_text, status_parser, config_parser, handle_event, set_command, Wake,
  event_wake, request_wake, Flow, running, stopped, handle_request, step, run_internal,
}
use wifi_ctrl.Ap.Served.{ApWorld}

-- What is broadcast of an event.
abbrev pub told : Event → Broadcast
told (Event.ap_sta_connected mac) = Broadcast.connected mac
told (Event.ap_sta_disconnected mac) = Broadcast.disconnected mac
told (Event.unknown msg) = Broadcast.unknown_event msg

-- What is broadcast of the events up to a shutdown.
abbrev pub heard : List Wake → List Broadcast
heard [] = []
heard (event_wake (ok d) ∷ wakes) = told (read_event d) ∷ heard wakes
heard (event_wake (err e) ∷ wakes) = heard wakes
heard (request_wake (some Request.shutdown) ∷ wakes) = []
heard (request_wake r ∷ wakes) = heard wakes

abbrev pub broadcasts : ApWorld → List Broadcast
broadcasts w = w.broadcasts

handle_event-told :
    (e : Event) (w : ApWorld) → (handle_event e w).1.broadcasts ≡ told e ∷ w.broadcasts
unfolding handle_event
handle_event-told (Event.ap_sta_connected mac) w = refl
handle_event-told (Event.ap_sta_disconnected mac) w = refl
handle_event-told (Event.unknown msg) w = refl

module _ (order : Table → Table) (peer : Peer) where
  command-IsUntold :
      (cmd : Bytes) (c : ℕ)
      → IsUntold {B = Broadcast} (do r ← command buffer_size peer cmd; answer c (finished r))
  command-IsUntold cmd c =
      reply-IsUntold (command buffer_size peer cmd) finished c
        (command_matching-IsQuiet buffer_size peer cmd is_ok)

  handle_request-IsUntold : (r : Request) → IsUntold (handle_request order peer r)
  unfolding handle_request
  handle_request-IsUntold (Request.custom cmd c) =
      reply-IsUntold (request buffer_size peer cmd as_text) text c
        (request-IsQuiet buffer_size peer cmd as_text)
  handle_request-IsUntold (Request.status c) =
      reply-IsUntold (request buffer_size peer (codes "STATUS") (status_parser order)) status_is c
        (request-IsQuiet buffer_size peer (codes "STATUS") (status_parser order))
  handle_request-IsUntold (Request.config c) =
      reply-IsUntold (request buffer_size peer (codes "GET_CONFIG") (config_parser order)) config_is
        c (request-IsQuiet buffer_size peer (codes "GET_CONFIG") (config_parser order))
  handle_request-IsUntold (Request.enable c) = command-IsUntold (codes "ENABLE") c
  handle_request-IsUntold (Request.disable c) = command-IsUntold (codes "DISABLE") c
  handle_request-IsUntold (Request.set_value key value c) =
      command-IsUntold (set_command key value) c
  handle_request-IsUntold Request.shutdown = λ w. refl

  abbrev next_round : List Wake → Flow → Ap Flow
  next_round wakes flow = elim flow [
    | running ↦ run_internal order peer wakes
    | stopped ↦ pure stopped
  ]

  -- A round that broadcasts `bs`, and those behind it.
  round-Logged :
      (m : Ap (Unit {0})) (bs : List Broadcast) (wakes : List Wake) (w : ApWorld)
      → (m w).1.broadcasts ≡ onto bs w.broadcasts
      → ((w' : ApWorld)
          → Logged broadcasts (heard wakes) w'.broadcasts (run_internal order peer wakes w'))
      → Logged broadcasts
          (bs ++ heard wakes)
          w.broadcasts
          (then_with (then_with (m w) (λ _. pure running)) (next_round wakes))
  round-Logged m bs wakes w e ih = rw (then_with-pure (m w) (λ _. running) (next_round wakes)) (
      then_with-Logged broadcasts bs (heard wakes) w.broadcasts (m w) _
        (Logged-all broadcasts bs w.broadcasts (m w) e) (λ _. ih))

  -- Whatever the daemon does and however the loop is woken: every event that comes in before a shutdown
  -- is broadcast exactly once, in the order in which the events came in, and nothing else is broadcast.
  -- If a socket error ends the loop, this holds of the events up to some point.
  pub run_internal-heard :
      (wakes : List Wake) (w : ApWorld)
      → Logged broadcasts (heard wakes) w.broadcasts (run_internal order peer wakes w)
  unfolding run_internal step
  run_internal-heard [] w = refl
  run_internal-heard (event_wake (err e) ∷ wakes) w = ([], heard wakes, refl, refl)
  run_internal-heard (event_wake (ok d) ∷ wakes) w =
      round-Logged (handle_event (read_event d)) (told (read_event d) ∷ []) wakes w
        (handle_event-told (read_event d) w) (run_internal-heard wakes)
  run_internal-heard (request_wake none ∷ wakes) w = ([], heard wakes, refl, refl)
  run_internal-heard (request_wake (some Request.shutdown) ∷ wakes) w = refl
  run_internal-heard (request_wake (some r) ∷ wakes) w =
      round-Logged (handle_request order peer r) [] wakes w (handle_request-IsUntold r w)
        (run_internal-heard wakes)
