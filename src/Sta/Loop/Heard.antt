-- ===== src/Sta/Loop/Heard.antt =====
-- `run_internal` of src/sta/mod.rs: what is broadcast, and in what order.
use wifi_ctrl.Prelude.{onto, List, [], ◌∷◌, ◌++◌, none, some, ok, err, ◌≡◌, refl}
use wifi_ctrl.Errors.{timeout}
use wifi_ctrl.Socket.Logged.{Logged, Logged-all, then_with-Logged, then_with-pure}
use wifi_ctrl.Socket.World.{Peer, then_with, pure}
use wifi_ctrl.Sta.Client.{Request, Broadcast}
use wifi_ctrl.Sta.Events.{read_event}
use wifi_ctrl.Sta.Loop.{
  Wake, event, request as request_wake, select_timeout, running, stopped, step, run_internal,
}
use wifi_ctrl.Sta.Station.{Settings, Pending, Sta, resolve_select, handle_event, handle_request}
use wifi_ctrl.Sta.Station.Balance.{StaWorld}
use wifi_ctrl.Sta.Station.Untold.{
  told, handle_event-told, handle_request-IsUntold, resolve_select-IsUntold,
}

-- What is broadcast of the events up to a shutdown.
abbrev pub heard : List Wake → List Broadcast
heard [] = []
heard (event (ok d) ∷ wakes) = told (read_event d) ++ heard wakes
heard (event (err e) ∷ wakes) = heard wakes
heard (request_wake (some Request.shutdown) ∷ wakes) = []
heard (request_wake r ∷ wakes) = heard wakes
heard (select_timeout ∷ wakes) = heard wakes

abbrev pub broadcasts : StaWorld → List Broadcast
broadcasts w = w.broadcasts

module _ (s : Settings) (peer : Peer) where
  -- A round that broadcasts `bs` and goes on, and the rounds behind it.
  round-Logged :
      (m : Sta Pending) (bs : List Broadcast) (wakes : List Wake) (w : StaWorld)
      → (m w).1.broadcasts ≡ onto bs w.broadcasts
      → ((p : Pending) (w' : StaWorld)
          → Logged broadcasts (heard wakes) w'.broadcasts (run_internal s peer wakes p w'))
      → Logged broadcasts (bs ++ heard wakes) w.broadcasts (
          then_with (then_with (m w) (λ p. pure (running p))) (λ flow. elim flow [
            | running p ↦ run_internal s peer wakes p
            | stopped p ↦ pure (stopped p)
          ]))
  round-Logged m bs wakes w e ih =
      rw
        (then_with-pure (m w) (λ p. running p)
          (λ flow. elim flow [
            | running p ↦ run_internal s peer wakes p
            | stopped p ↦ pure (stopped p)
          ]))
        (then_with-Logged broadcasts bs (heard wakes) w.broadcasts (m w) _
          (Logged-all broadcasts bs w.broadcasts (m w) e) ih)

  -- Whatever the daemon does and however the loop is woken: every event that comes in before a shutdown
  -- and is not the end of a scan is broadcast exactly once, in the order in which the events came in, and
  -- nothing else is broadcast. If a socket error ends the loop, this holds of the events up to some point.
  pub run_internal-told :
      (wakes : List Wake) (p : Pending) (w : StaWorld)
      → Logged broadcasts (heard wakes) w.broadcasts (run_internal s peer wakes p w)
  unfolding run_internal step
  run_internal-told [] p w = refl
  run_internal-told (event (err e) ∷ wakes) p w = ([], heard wakes, refl, refl)
  run_internal-told (event (ok d) ∷ wakes) p w =
      round-Logged (handle_event s peer (read_event d) p) (told (read_event d)) wakes w
        (handle_event-told s peer (read_event d) p w) (run_internal-told wakes)
  run_internal-told (request_wake none ∷ wakes) p w = ([], heard wakes, refl, refl)
  run_internal-told (request_wake (some Request.shutdown) ∷ wakes) p w = refl
  run_internal-told (request_wake (some r) ∷ wakes) p w =
      round-Logged (handle_request s peer r p) [] wakes w (handle_request-IsUntold s peer r p w)
        (run_internal-told wakes)
  run_internal-told (select_timeout ∷ wakes) p w =
      round-Logged (resolve_select (err timeout) p p.select_request) [] wakes w
        (resolve_select-IsUntold (err timeout) p p.select_request w) (run_internal-told wakes)
