-- ===== src/Sta/Loop/Gives.antt =====
-- The loop of src/sta/mod.rs, and the answers that it gives through the channels that come in.
use wifi_ctrl.Prelude.{ℕ, List, [], ◌∷◌, Option, none, some, ok, err, All, refl}
use wifi_ctrl.Errors.{timeout}
use wifi_ctrl.Socket.World.{Peer, ◌>>=◌, pure}
use wifi_ctrl.Socket.Gives.{Added, Gives, pure-Gives, >>=-Gives}
use wifi_ctrl.Sta.Client.{Request, Answer}
use wifi_ctrl.Sta.Events.{read_event}
use wifi_ctrl.Sta.Loop.{Wake, event, request, select_timeout, Flow, running, stopped, step}
use wifi_ctrl.Sta.Station.{
  SelectRequest, Settings, Pending, Sta, handle_event, handle_request, resolve_select,
}
use wifi_ctrl.Sta.Station.Balance.{StaWorld}
use wifi_ctrl.Sta.Station.Gives.{
  TakesScan, SelectTakes, PendingTakes, RequestTakes, resolve_select-Gives, handle_event-Gives,
  handle_request-Gives,
}

module _ (P : ℕ → Answer → Type 0) where
  abbrev pub FlowTakes : Flow → Type 0
  FlowTakes (running p) = PendingTakes P p
  FlowTakes (stopped p) = PendingTakes P p

  abbrev WakeTakes : Wake → Type 0
  WakeTakes (request (some r)) = RequestTakes P r
  WakeTakes _ = Unit

  go_on-Gives :
      (m : Sta Pending)
      → Gives P (PendingTakes P) m
      → Gives P FlowTakes (m >>= λ p. pure (running p))
  go_on-Gives m h =
      >>=-Gives P (PendingTakes P) FlowTakes m _ h (λ p t. pure-Gives P FlowTakes (running p) t)

  module _ (s : Settings) (peer : Peer) where
    step-Gives :
        (wake : Wake) (p : Pending)
        → WakeTakes wake
        → PendingTakes P p
        → Gives P FlowTakes (step s peer wake p)
    unfolding step
    step-Gives (event (err e)) p h t = λ w. (([], refl, tt), tt)
    step-Gives (event (ok d)) p h t =
        go_on-Gives (handle_event s peer (read_event d) p)
          (handle_event-Gives P s peer (read_event d) p t)
    step-Gives (request none) p h t = λ w. (([], refl, tt), tt)
    step-Gives (request (some Request.shutdown)) p h t = pure-Gives P FlowTakes (stopped p) t
    step-Gives (request (some r)) p h t =
        go_on-Gives (handle_request s peer r p) (handle_request-Gives P s peer r p h t)
    step-Gives select_timeout p h t =
        go_on-Gives (resolve_select (err timeout) p p.select_request)
          (resolve_select-Gives P (err timeout) p p.select_request t t.chosen)

-- No demand is made of an answer.
any_request : (r : Request) → RequestTakes (λ c a. Unit {0}) r
any_request (Request.custom cmd c) = λ x. tt
any_request (Request.status c) = λ x. tt
any_request (Request.networks c) = λ x. tt
any_request (Request.scan c) = λ x. tt
any_request (Request.add_network c) = λ x. tt
any_request (Request.set_network id param c) = λ x. tt
any_request (Request.save_config c) = λ x. tt
any_request (Request.reload_config c) = λ x. tt
any_request (Request.remove_network which c) = λ x. tt
any_request (Request.select_network id c) = λ x. tt
any_request Request.shutdown = tt

any_wake : (wake : Wake) → WakeTakes (λ c a. Unit {0}) wake
any_wake (request (some r)) = any_request r
any_wake (request none) = tt
any_wake (event d) = tt
any_wake select_timeout = tt

any_scans : (cs : List ℕ) → All (TakesScan (λ c a. Unit {0})) cs
any_scans [] = tt
any_scans (c ∷ cs) = (λ x. tt, any_scans cs)

any_select : (o : Option SelectRequest) → SelectTakes (λ c a. Unit {0}) o
any_select none = tt
any_select (some s) = λ x. tt

any_pending : (p : Pending) → PendingTakes (λ c a. Unit {0}) p
any_pending p = record { scans = any_scans p.scan_requests; chosen = any_select p.select_request }

-- What one round of the loop adds is answers.
pub step-Added :
    (s : Settings) (peer : Peer) (wake : Wake) (p : Pending) (w : StaWorld)
    → Added (λ c a. Unit {0}) w (step s peer wake p w).1
step-Added s peer wake p w =
    (step-Gives (λ c a. Unit {0}) s peer wake p (any_wake wake) (any_pending p) w).0
