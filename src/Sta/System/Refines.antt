-- ===== src/Sta/System/Refines.antt =====
-- The clients and the runner of src/sta and the steps of the service.
use wifi_ctrl.Prelude.{
  ℕ, ◌+◌, ◌≤◌, List, [], ◌++◌, some, Result, ok, err, count, count-append, map, ◌≡◌, refl, sym, ap,
  ◌∙◌, arith,
}
use mathlib.Core.Path.{subst}
use mathlib.Core.List.{map-append}
use wifi_ctrl.Prelude.Bags.{bag, bag-Reordered, times, joined}
use wifi_ctrl.Errors.{SocketError}
use wifi_ctrl.Socket.Channel.{Mpsc, IsMpsc}
use wifi_ctrl.Socket.Channel.Room.{send-sent}
use wifi_ctrl.Socket.Gives.{Added}
use wifi_ctrl.Socket.World.{Peer}
use wifi_ctrl.Sta.Calls.{build_request}
use wifi_ctrl.Sta.Client.{Request, Answer}
use wifi_ctrl.Sta.Loop.{Wake, request, event, select_timeout, Flow, running, stopped, step}
use wifi_ctrl.Sta.Loop.Gives.{step-Added}
use wifi_ctrl.Sta.System.View.{
  waiting_channels, answered_channels, service_at, count-waiting_channels, service,
  service_at-invoke, service_at-drop, brought-shutdown,
}
use wifi_ctrl.Sta.Loop.Settled.{channel_of, Settled, step-Settled}
use wifi_ctrl.Sta.Station.{Settings, Pending}
use wifi_ctrl.Sta.Station.Balance.{StaWorld, answered, waiting, channel}
use wifi_ctrl.Sta.System.{
  looping, returned, System, settle, brought, Step, call, ask_shutdown, take, hear, expire, drop,
}
use wifi_ctrl.Sta.System.Once.{build_request-channel, count-brought-append}
use wifi_ctrl.Service.{Serves, idle, reply, stop}

channels_of : List (ℕ × Answer) → List ℕ
channels_of new = map (λ a. a.0) new

answered_channels-Added :
    (w w' : StaWorld) (new : List (ℕ × Answer))
    → w'.answers ≡ new ++ w.answers
    → answered_channels w' ≡ channels_of new ++ answered_channels w
unfolding channels_of
answered_channels-Added w w' new e = ap (map (λ a. a.0)) e ∙ map-append (λ a. a.0) new w.answers

module _ {C : Type 0} (m : Mpsc Request C) (s : System C) (cs q : List ℕ) (w : StaWorld)
    (p : Pending) (took : (c : ℕ) → count c q ≡ count c cs + count c (brought (m.queue s.ch))) where
  -- A round that ends the loop.
  ending-Serves :
      (r : Result SocketError (Unit {0})) (w' : StaWorld)
      → Added (λ c a. Unit {0}) w w'
      → ((c : ℕ) → answered c w' ≤ answered c w + waiting c p + count c cs)
      → Serves
          (service_at (looping p) q (answered_channels w) s.fresh)
          (service m (record s { phase = returned r; world = w' }))
  unfolding joined times
  ending-Serves r w' (new, e, _) h =
      let l = answered_channels-Added w w' new e in
      subst
        (λ b.
          Serves (service_at (looping p) q (answered_channels w) s.fresh)
            (record (service m (record s { phase = returned r; world = w' })) { replied = b }))
        (ap bag (sym l))
        (stop (channels_of new) (bag (brought (m.queue s.ch))) refl (λ c. omega (
          arith,
          took c,
          h c,
          ap (count c) l,
          count-append c (channels_of new) (answered_channels w),
          count-append c q (waiting_channels p),
          count-append c (channels_of new) (brought (m.queue s.ch)),
          count-waiting_channels c p,
        )))

  -- A round that took in the channels `cs`.
  settle-Serves :
      (x : Result SocketError Flow × StaWorld)
      → Added (λ c a. Unit {0}) w x.1
      → ((c : ℕ) → Settled c cs w p x)
      → Serves (service_at (looping p) q (answered_channels w) s.fresh) (service m (settle s x))
  unfolding joined times
  settle-Serves (ok (running p'), w') (new, e, _) h =
      let l = answered_channels-Added w w' new e in
      subst
        (λ b.
          Serves (service_at (looping p) q (answered_channels w) s.fresh)
            (record (service m (settle s (ok (running p'), w'))) { replied = b }))
        (ap bag (sym l))
        (reply (channels_of new) (bag (brought (m.queue s.ch) ++ waiting_channels p')) refl (
          bag-Reordered (λ c. omega (
            arith,
            took c,
            h c,
            ap (count c) l,
            count-append c (channels_of new) (answered_channels w),
            count-append c q (waiting_channels p),
            count-append c (channels_of new) (brought (m.queue s.ch) ++ waiting_channels p'),
            count-append c (brought (m.queue s.ch)) (waiting_channels p'),
            count-waiting_channels c p,
            count-waiting_channels c p',
          ))))
  settle-Serves (ok (stopped p'), w') a h = ending-Serves (ok tt) w' a (λ c. omega (arith, h c))
  settle-Serves (err x, w') a h = ending-Serves (err x) w' a h

module _ {C : Type 0} (m : Mpsc Request C) (laws : IsMpsc m) (set : Settings) (peer : Peer) where
  looping-service :
      (s : System C) (p : Pending)
      → s.phase ≡ looping p
      → service m s
        ≡ service_at (looping p) (brought (m.queue s.ch)) (answered_channels s.world) s.fresh
  looping-service s p e =
      ap (λ ph. service_at ph (brought (m.queue s.ch)) (answered_channels s.world) s.fresh) e

  round-Serves :
      (s : System C) (wake : Wake) (p : Pending)
      → s.phase ≡ looping p
      → channel_of wake ≡ []
      → Serves (service m s) (service m (settle s (step set peer wake p s.world)))
  round-Serves s wake p up none_in = rw (looping-service s p up) (
      settle-Serves m s (channel_of wake) (brought (m.queue s.ch)) s.world p
        (λ c. omega (arith, ap (count c) none_in)) (step set peer wake p s.world)
        (step-Added set peer wake p s.world) (λ c. step-Settled c set peer wake p s.world))

  -- The runner implements the service: whatever clients, the daemon and the runner do in one step, seen as
  -- the service it is a step that the service allows, from any state.
  pub Step-Serves : (s t : System C) → Step m set peer s t → Serves (service m s) (service m t)
  Step-Serves s t (call k ch' up e) =
      let q = send-sent m laws (build_request k s.fresh) s.ch ch' e in
      service_at-invoke s.phase (brought (m.queue s.ch)) (brought (m.queue ch'))
        (answered_channels s.world) s.fresh up
        (λ c.
          ap (λ l. count c (brought l)) q
          ∙ count-brought-append c (m.queue s.ch) (build_request k s.fresh)
          ∙ ap (λ l. count c (brought (m.queue s.ch)) + count c l)
              (build_request-channel k s.fresh))
  Step-Serves s t (ask_shutdown ch' up e) =
      let q = send-sent m laws Request.shutdown s.ch ch' e in
      let same = ap brought q ∙ brought-shutdown (m.queue s.ch) in
      subst (λ l. Serves (service m s) (service_at s.phase l (answered_channels s.world) s.fresh))
        (sym same) idle
  Step-Serves s t (take p r ch' up e) =
      let (q, _) = laws.recv_oldest r s.ch ch' e in
      rw (looping-service s p up) (
        settle-Serves m (record s { ch = ch' }) (channel r) (brought (m.queue s.ch)) s.world p
          (λ c.
            ap (λ l. count c (brought l)) q ∙ count-append c (channel r) (brought (m.queue ch')))
          (step set peer (request (some r)) p s.world)
          (step-Added set peer (request (some r)) p s.world)
          (λ c. step-Settled c set peer (request (some r)) p s.world))
  Step-Serves s t (hear p d up) = round-Serves s (event d) p up refl
  Step-Serves s t (expire p up) = round-Serves s select_timeout p up refl
  Step-Serves s t drop =
      service_at-drop s.phase (brought (m.queue s.ch)) (answered_channels s.world) s.fresh
