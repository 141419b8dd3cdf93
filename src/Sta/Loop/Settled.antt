-- ===== src/Sta/Loop/Settled.antt =====
-- `run_internal` of src/sta/mod.rs: what becomes of the channels that come in with requests.
use wifi_ctrl.Prelude.{
  ℕ, ◌+◌, ◌≤◌, List, [], ◌∷◌, ◌++◌, none, some, Result, ok, err, ◌≡◌, refl, arith, count,
  count-append,
}
use wifi_ctrl.Errors.{SocketError, timeout}
use wifi_ctrl.Socket.World.{Peer, then_with, pure}
use wifi_ctrl.Sta.Client.{Request}
use wifi_ctrl.Sta.Events.{read_event}
use wifi_ctrl.Sta.Station.{Settings, Pending, handle_event, handle_request, resolve_select}
use wifi_ctrl.Sta.Station.Balance.{
  StaWorld, answered, waiting, Balanced, channel, handle_event-Balanced, handle_request-Balanced,
  resolve_select-Balanced,
}
use wifi_ctrl.Sta.Loop.{
  Wake, event, request, select_timeout, Flow, running, stopped, step, run_internal,
}

-- The channels of the requests among the wakes.
abbrev pub channel_of : Wake → List ℕ
channel_of (event e) = []
channel_of (request none) = []
channel_of (request (some r)) = channel r
channel_of select_timeout = []

abbrev pub channels : List Wake → List ℕ
channels [] = []
channels (wake ∷ wakes) = channel_of wake ++ channels wakes

-- How often channel `c` is answered and waits at the end, compared with how often it was answered,
-- waited or came in with the channels `cs`. While the loop runs the two agree. A loop that has ended
-- may have left requests unread or dropped those that waited, and has answered none more often.
abbrev pub Settled : ℕ → List ℕ → StaWorld → Pending → Result SocketError Flow × StaWorld → Type 0
Settled c cs w p (ok (running p'), w') =
    answered c w' + waiting c p' ≡ answered c w + waiting c p + count c cs
Settled c cs w p (ok (stopped p'), w') =
    answered c w' + waiting c p' ≤ answered c w + waiting c p + count c cs
Settled c cs w p (err e, w') = answered c w' ≤ answered c w + waiting c p + count c cs

module _ (c : ℕ) where
  keep_running :
      (cs : List ℕ) (w : StaWorld) (p : Pending) (x : Result SocketError Pending × StaWorld)
      → Balanced c cs w p x
      → Settled c cs w p (then_with x (λ p'. pure (running p')))
  keep_running cs w p (ok p', w') b = b
  keep_running cs w p (err e, w') b = b

  module _ (s : Settings) (peer : Peer) where
    pub step-Settled :
        (wake : Wake) (p : Pending) (w : StaWorld)
        → Settled c (channel_of wake) w p (step s peer wake p w)
    unfolding step
    step-Settled (event (err e)) p w = omega arith
    step-Settled (event (ok d)) p w =
        keep_running [] w p (handle_event s peer (read_event d) p w)
          (handle_event-Balanced c s peer (read_event d) p w)
    step-Settled (request none) p w = omega arith
    step-Settled (request (some Request.shutdown)) p w = omega arith
    step-Settled (request (some r)) p w =
        keep_running (channel r) w p (handle_request s peer r p w)
          (handle_request-Balanced c s peer r p w)
    step-Settled select_timeout p w =
        keep_running [] w p (resolve_select (err timeout) p p.select_request w)
          (resolve_select-Balanced c (err timeout) p p.select_request w refl)

    -- From a state after `cs`, behind which `ds` come in.
    Settled-append :
        (cs ds : List ℕ) (w w' : StaWorld) (p p' : Pending)
        → answered c w' + waiting c p' ≡ answered c w + waiting c p + count c cs
        → (x : Result SocketError Flow × StaWorld) → Settled c ds w' p' x
        → Settled c (cs ++ ds) w p x
    Settled-append cs ds w w' p p' h (ok (running p''), w'') b = omega (arith, count-append c cs ds)
    Settled-append cs ds w w' p p' h (ok (stopped p''), w'') b = omega (arith, count-append c cs ds)
    Settled-append cs ds w w' p p' h (err e, w'') b = omega (arith, count-append c cs ds)

    -- However the loop is woken, and whatever the daemon does: while the loop runs, each channel
    -- has been answered, or waits, together exactly as often as it came in, counting from the
    -- answers and the waiting requests at the start; and whether it runs, has stopped or has
    -- failed, no channel has been answered more often than that.
    pub run_internal-Settled :
        (wakes : List Wake) (p : Pending) (w : StaWorld)
        → Settled c (channels wakes) w p (run_internal s peer wakes p w)
    unfolding run_internal
    run_internal-Settled [] p w = omega arith
    run_internal-Settled (wake ∷ wakes) p w =
        go (step s peer wake p w) (step-Settled wake p w)
          (λ p' w'. run_internal-Settled wakes p' w')
      where
        go :
            (x : Result SocketError Flow × StaWorld)
            → Settled c (channel_of wake) w p x
            → ((p' : Pending) (w' : StaWorld)
                → Settled c (channels wakes) w' p' (run_internal s peer wakes p' w'))
            → Settled c (channel_of wake ++ channels wakes) w p (
                then_with x (λ flow. elim flow [
                  | running p' ↦ run_internal s peer wakes p'
                  | stopped p' ↦ pure (stopped p')
                ]))
        go (ok (running p'), w') b ih =
            Settled-append (channel_of wake) (channels wakes) w w' p p' b
              (run_internal s peer wakes p' w') (ih p' w')
        go (ok (stopped p'), w') b ih =
            omega (arith, count-append c (channel_of wake) (channels wakes))
        go (err e, w') b ih = omega (arith, count-append c (channel_of wake) (channels wakes))
