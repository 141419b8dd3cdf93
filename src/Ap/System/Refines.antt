-- ===== src/Ap/System/Refines.antt =====
-- The clients and the runner of src/ap and the steps of a service that replies in order.
use mathlib.Core.Path.{subst}
use mathlib.Core.List.{append-nil, append_assoc}
use wifi_ctrl.Prelude.{
  ℕ, suc, true, false, List, [], ◌∷◌, ◌++◌, some, Result, ok, err, ◌≡◌, ◌≢◌, refl, sym, ap, ◌∙◌,
}
use wifi_ctrl.Errors.{SocketError}
use wifi_ctrl.Config.Table.{Table}
use wifi_ctrl.Service.{Serves}
use wifi_ctrl.Service.Fifo.{
  Fifo, Queues, idle, invoke, reply, stop, abandon, unordered, Queues-Serves,
}
use wifi_ctrl.Socket.Channel.{Mpsc, IsMpsc}
use wifi_ctrl.Socket.Channel.Room.{send-sent}
use wifi_ctrl.Socket.World.{Peer}
use wifi_ctrl.Ap.Calls.{build_ap_request}
use wifi_ctrl.Ap.Client.{Request}
use wifi_ctrl.Ap.Runner.{event_wake, request_wake, Flow, running, stopped, step}
use wifi_ctrl.Ap.Served.{ApWorld, answered, channel, Served, step-Served}
use wifi_ctrl.Ap.System.{
  brought, ApPhase, looping, returned, dropped, ApSystem, settle_ap, ApStep, call, ask_shutdown,
  take, hear, drop,
}
use wifi_ctrl.Ap.System.InOrder.{brought-sent, build_ap_request-channel}

-- The service, by the phase and the channels that the request channel holds.
abbrev pub fifo_at : ApPhase → List ℕ → List ℕ → ℕ → Fifo
fifo_at looping q log n = record { fresh = n; line = q; replied = log; serving = true }
fifo_at (returned r) q log n = record { fresh = n; line = q; replied = log; serving = false }
fifo_at dropped q log n = record { fresh = n; line = []; replied = log; serving = false }

fifo_at-invoke :
    (ph : ApPhase) (q log : List ℕ) (n : ℕ)
    → ph ≢ dropped
    → Queues (fifo_at ph q log n) (fifo_at ph (q ++ n ∷ []) log (suc n))
fifo_at-invoke looping q log n up = invoke
fifo_at-invoke (returned r) q log n up = invoke
fifo_at-invoke dropped q log n up = absurd (up refl)

fifo_at-drop :
    (ph : ApPhase) (q log : List ℕ) (n : ℕ) → Queues (fifo_at ph q log n) (fifo_at dropped q log n)
fifo_at-drop looping q log n = abandon q [] (sym (append-nil q))
fifo_at-drop (returned r) q log n = abandon q [] (sym (append-nil q))
fifo_at-drop dropped q log n = idle

module _ {C : Type 0} (m : Mpsc Request C) where
  abbrev pub fifo : ApSystem C → Fifo
  fifo s = fifo_at s.phase (brought (m.queue s.ch)) (answered s.world) s.fresh

  -- A round that took the channels `cs` in.
  settle_ap-Queues :
      (s : ApSystem C) (cs q log : List ℕ) (x : Result SocketError Flow × ApWorld)
      → q ≡ cs ++ brought (m.queue s.ch)
      → Served cs log x
      → Queues (fifo_at looping q log s.fresh) (fifo (settle_ap s x))
  settle_ap-Queues s cs q log (ok running, w) e h =
      let rest = brought (m.queue s.ch) in
      subst (λ l. Queues (fifo_at looping q log s.fresh) (fifo_at looping rest l s.fresh)) (sym h)
        (reply cs rest refl e)
  settle_ap-Queues s cs q log (ok stopped, w) e h =
      let rest = brought (m.queue s.ch) in
      subst
        (λ l. Queues (fifo_at looping q log s.fresh) (fifo_at (returned (ok tt)) rest l s.fresh))
        (sym h) (stop cs [] rest refl e)
  settle_ap-Queues s cs q log (err x, w) e (ds, es, split_at, h) =
      let rest = brought (m.queue s.ch) in
      subst
        (λ l. Queues (fifo_at looping q log s.fresh) (fifo_at (returned (err x)) rest l s.fresh))
        (sym h) (stop ds es rest refl (e ∙ ap (λ l. l ++ rest) split_at ∙ append_assoc ds es rest))

  module _ (laws : IsMpsc m) (order : Table → Table) (peer : Peer) where
    looping-fifo :
        (s : ApSystem C)
        → s.phase ≡ looping
        → fifo s ≡ fifo_at looping (brought (m.queue s.ch)) (answered s.world) s.fresh
    looping-fifo s e = ap (λ ph. fifo_at ph (brought (m.queue s.ch)) (answered s.world) s.fresh) e

    sent :
        (s : ApSystem C) (r : Request) (ch' : C)
        → m.send r s.ch ≡ some ch'
        → brought (m.queue ch') ≡ brought (m.queue s.ch) ++ channel r
    sent s r ch' e = ap brought (send-sent m laws r s.ch ch' e) ∙ brought-sent (m.queue s.ch) r

    ApStep-Queues : {s t : ApSystem C} → ApStep m order peer s t → Queues (fifo s) (fifo t)
    ApStep-Queues {s} (call k ch' up e) =
        let q =
          sent s (build_ap_request k s.fresh) ch' e
          ∙ ap (λ l. brought (m.queue s.ch) ++ l) (build_ap_request-channel k s.fresh) in
        rw q (fifo_at-invoke s.phase (brought (m.queue s.ch)) (answered s.world) s.fresh up)
    ApStep-Queues {s} (ask_shutdown ch' up e) =
        let q = sent s Request.shutdown ch' e ∙ append-nil (brought (m.queue s.ch)) in rw q idle
    ApStep-Queues {s} (take r ch' up e) =
        let (q, _) = laws.recv_oldest r s.ch ch' e in
        rw (looping-fifo s up) (
          settle_ap-Queues (record s { ch = ch' }) (channel r) (brought (m.queue s.ch))
            (answered s.world) (step order peer (request_wake (some r)) s.world) (ap brought q)
            (step-Served order peer (request_wake (some r)) s.world))
    ApStep-Queues {s} (hear d up) = rw (looping-fifo s up) (
        settle_ap-Queues s [] (brought (m.queue s.ch)) (answered s.world)
          (step order peer (event_wake d) s.world) refl
          (step-Served order peer (event_wake d) s.world))
    ApStep-Queues {s} drop =
        fifo_at-drop s.phase (brought (m.queue s.ch)) (answered s.world) s.fresh

    -- With channels as documented, the runner of the access point implements a service that replies in
    -- the order in which it was called: whatever clients, the daemon and the runner do in one step,
    -- seen as that service it is a step that it allows, from any state. With the order forgotten, it is
    -- a step that is allowed to the service that the station implements.
    pub ApStep-Serves :
        (s t : ApSystem C)
        → ApStep m order peer s t
        → Queues (fifo s) (fifo t) × Serves (unordered (fifo s)) (unordered (fifo t))
    ApStep-Serves s t st =
        let queues = ApStep-Queues st in (queues, Queues-Serves (fifo s) (fifo t) queues)
