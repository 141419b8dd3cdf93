-- ===== src/Sta/Loop/Stops.antt =====
-- The loop of src/sta/mod.rs: which of its rounds can stop it.
use wifi_ctrl.Prelude.{some, Result, ok, err, false, ◌≡◌, ◌⊎◌, inl, inr, refl}
use wifi_ctrl.Errors.{IoError, SocketError, timeout}
use wifi_ctrl.Text.{Bytes}
use wifi_ctrl.Socket.World.{Peer, then_with, pure}
use wifi_ctrl.Sta.Client.{Request, is_shutdown}
use wifi_ctrl.Sta.Events.{read_event}
use wifi_ctrl.Sta.Loop.{request, event, select_timeout, Flow, running, stopped, step}
use wifi_ctrl.Sta.Station.{Settings, Pending, handle_event, handle_request, resolve_select}
use wifi_ctrl.Sta.Station.Balance.{StaWorld}

-- A round that does not stop the loop.
abbrev pub GoesOn : Result SocketError Flow × StaWorld → Type 0
GoesOn (ok (running p), w) = Unit {0}
GoesOn (ok (stopped p), w) = ⊥
GoesOn (err e, w) = Unit {0}

go_on-GoesOn :
    (x : Result SocketError Pending × StaWorld) → GoesOn (then_with x (λ p. pure (running p)))
go_on-GoesOn (ok p, w) = tt
go_on-GoesOn (err e, w) = tt

module _ (set : Settings) (peer : Peer) (p : Pending) (w : StaWorld) where
  pub hear-GoesOn : (d : Result IoError Bytes) → GoesOn (step set peer (event d) p w)
  unfolding step
  hear-GoesOn (err e) = tt
  hear-GoesOn (ok d) = go_on-GoesOn (handle_event set peer (read_event d) p w)

  pub expire-GoesOn : GoesOn (step set peer select_timeout p w)
  unfolding step
  expire-GoesOn = go_on-GoesOn (resolve_select (err timeout) p p.select_request w)

  -- A request that the loop takes is a shutdown, or does not stop it.
  pub take-GoesOn :
      (r : Request)
      → (r ≡ Request.shutdown)
        ⊎ ((is_shutdown r ≡ false) × GoesOn (step set peer (request (some r)) p w))
  unfolding step is_shutdown
  take-GoesOn (Request.custom cmd c) =
      inr (refl, go_on-GoesOn (handle_request set peer (Request.custom cmd c) p w))
  take-GoesOn (Request.status c) =
      inr (refl, go_on-GoesOn (handle_request set peer (Request.status c) p w))
  take-GoesOn (Request.networks c) =
      inr (refl, go_on-GoesOn (handle_request set peer (Request.networks c) p w))
  take-GoesOn (Request.scan c) =
      inr (refl, go_on-GoesOn (handle_request set peer (Request.scan c) p w))
  take-GoesOn (Request.add_network c) =
      inr (refl, go_on-GoesOn (handle_request set peer (Request.add_network c) p w))
  take-GoesOn (Request.set_network id v c) =
      inr (refl, go_on-GoesOn (handle_request set peer (Request.set_network id v c) p w))
  take-GoesOn (Request.save_config c) =
      inr (refl, go_on-GoesOn (handle_request set peer (Request.save_config c) p w))
  take-GoesOn (Request.reload_config c) =
      inr (refl, go_on-GoesOn (handle_request set peer (Request.reload_config c) p w))
  take-GoesOn (Request.remove_network which c) =
      inr (refl, go_on-GoesOn (handle_request set peer (Request.remove_network which c) p w))
  take-GoesOn (Request.select_network id c) =
      inr (refl, go_on-GoesOn (handle_request set peer (Request.select_network id c) p w))
  take-GoesOn Request.shutdown = inl refl

  pub take_shutdown-eq : step set peer (request (some Request.shutdown)) p w ≡ (ok (stopped p), w)
  unfolding step
  take_shutdown-eq = refl
