-- ===== src/Ap/System/InOrder.antt =====
-- The clients of src/ap/client.rs and the runner: the order in which calls are answered.
use mathlib.Core.List.{append_assoc, append-nil}
use wifi_ctrl.Prelude.{
  onto, onto-append, ℕ, zero, suc, List, [], ◌∷◌, ◌++◌, some, Result, ok, err, ◌≡◌, refl, sym, ap,
  ◌∙◌,
}
use wifi_ctrl.Errors.{SocketError}
use wifi_ctrl.Config.Table.{Table}
use wifi_ctrl.Socket.Channel.{Mpsc, IsMpsc}
use wifi_ctrl.Socket.Channel.Room.{send-sent}
use wifi_ctrl.Socket.World.{Peer}
use wifi_ctrl.Ap.Calls.{ApCall, build_ap_request}
use wifi_ctrl.Ap.Client.{Request}
use wifi_ctrl.Ap.Runner.{event_wake, request_wake, Flow, running, stopped, step}
use wifi_ctrl.Ap.Served.{ApWorld, answered, channel, Served, step-Served}
use wifi_ctrl.Ap.System.{
  brought, ApPhase, looping, returned, dropped, ApSystem, settle_ap, ApStep, call, ask_shutdown,
  take, hear, drop, ApReach, here, next, begin_ap,
}

-- The calls that were made, the last first.
abbrev pub made : ℕ → List ℕ
made zero = []
made (suc n) = n ∷ made n

pub brought-sent : (q : List Request) (r : Request) → brought (q ++ r ∷ []) ≡ brought q ++ channel r
brought-sent [] (Request.custom cmd d) = refl
brought-sent [] (Request.status d) = refl
brought-sent [] (Request.config d) = refl
brought-sent [] (Request.enable d) = refl
brought-sent [] (Request.disable d) = refl
brought-sent [] (Request.set_value key value d) = refl
brought-sent [] Request.shutdown = refl
brought-sent (x ∷ q) r =
    ap (λ l. channel x ++ l) (brought-sent q r)
    ∙ sym (append_assoc (channel x) (brought q) (channel r))

pub build_ap_request-channel : (k : ApCall) (c : ℕ) → channel (build_ap_request k c) ≡ c ∷ []
unfolding build_ap_request
build_ap_request-channel (ApCall.send_custom custom) c = refl
build_ap_request-channel ApCall.get_status c = refl
build_ap_request-channel ApCall.get_config c = refl
build_ap_request-channel ApCall.enable c = refl
build_ap_request-channel ApCall.disable c = refl
build_ap_request-channel (ApCall.set_value key value) c = refl

-- What was put in front.
onto-more : (cs log : List ℕ) → (more : List ℕ) × (onto cs log ≡ more ++ log)
onto-more [] log = ([], refl)
onto-more (c ∷ cs) log =
    let (more, e) = onto-more cs (c ∷ log) in
    (more ++ c ∷ [], e ∙ sym (append_assoc more (c ∷ []) log))

-- While the loop runs, the calls that were made are those that were answered and then those in the request
-- channel, in the order in which they were sent. Behind its end, those that were answered are the
-- first ones that were made.
abbrev pub OrderAt : ApPhase → List ℕ → List ℕ → ℕ → Type 0
OrderAt looping q log n = onto q log ≡ made n
OrderAt (returned r) q log n = (more : List ℕ) × (made n ≡ more ++ log)
OrderAt dropped q log n = (more : List ℕ) × (made n ≡ more ++ log)

OrderAt-sent :
    (ph : ApPhase) (q log : List ℕ) (n : ℕ)
    → OrderAt ph q log n
    → OrderAt ph (q ++ n ∷ []) log (suc n)
OrderAt-sent looping q log n h = onto-append q (n ∷ []) log ∙ ap (◌∷◌ n) h
OrderAt-sent (returned r) q log n (more, e) = (n ∷ more, ap (◌∷◌ n) e)
OrderAt-sent dropped q log n (more, e) = (n ∷ more, ap (◌∷◌ n) e)

OrderAt-over :
    (q log : List ℕ) (n : ℕ) → onto q log ≡ made n → (more : List ℕ) × (made n ≡ more ++ log)
OrderAt-over q log n h = let (more, e) = onto-more q log in (more, sym h ∙ e)

OrderAt-dropped :
    (ph : ApPhase) (q log : List ℕ) (n : ℕ) → OrderAt ph q log n → OrderAt dropped q log n
OrderAt-dropped looping q log n h = OrderAt-over q log n h
OrderAt-dropped (returned r) q log n h = h
OrderAt-dropped dropped q log n h = h

module _ {C : Type 0} (m : Mpsc Request C) where
  abbrev pub InOrder : ApSystem C → Type 0
  InOrder s = OrderAt s.phase (brought (m.queue s.ch)) (answered s.world) s.fresh

  -- A round that took the channels `cs` in.
  settle_ap-InOrder :
      (s : ApSystem C) (cs log : List ℕ) (x : Result SocketError Flow × ApWorld)
      → onto (cs ++ brought (m.queue s.ch)) log ≡ made s.fresh
      → Served cs log x
      → InOrder (settle_ap s x)
  settle_ap-InOrder s cs log (ok running, w) h e =
      ap (onto (brought (m.queue s.ch))) e ∙ sym (onto-append cs (brought (m.queue s.ch)) log) ∙ h
  settle_ap-InOrder s cs log (ok stopped, w) h e =
      OrderAt-over (brought (m.queue s.ch)) (answered w) s.fresh (
        ap (onto (brought (m.queue s.ch))) e
        ∙ sym (onto-append cs (brought (m.queue s.ch)) log)
        ∙ h)
  settle_ap-InOrder s cs log (err x, w) h (ds, es, split_at, e) =
      let rest = es ++ brought (m.queue s.ch) in
      OrderAt-over rest (answered w) s.fresh (
        ap (onto rest) e
        ∙ sym (onto-append ds rest log)
        ∙ ap (λ l. onto l log)
            (sym (append_assoc ds es (brought (m.queue s.ch)))
              ∙ ap (λ l. l ++ brought (m.queue s.ch)) (sym split_at))
        ∙ h)

  module _ (laws : IsMpsc m) (order : Table → Table) (peer : Peer) where
    looping-InOrder :
        (s : ApSystem C)
        → s.phase ≡ looping
        → InOrder s
        → onto (brought (m.queue s.ch)) (answered s.world) ≡ made s.fresh
    looping-InOrder s e o = rw e at o

    ApStep-InOrder : {s t : ApSystem C} → ApStep m order peer s t → InOrder s → InOrder t
    ApStep-InOrder {s} (call k ch' up e) o =
        let q =
          ap brought (send-sent m laws (build_ap_request k s.fresh) s.ch ch' e)
          ∙ brought-sent (m.queue s.ch) (build_ap_request k s.fresh)
          ∙ ap (λ l. brought (m.queue s.ch) ++ l) (build_ap_request-channel k s.fresh) in
        rw q (OrderAt-sent s.phase (brought (m.queue s.ch)) (answered s.world) s.fresh o)
    ApStep-InOrder {s} (ask_shutdown ch' up e) o =
        let q =
          ap brought (send-sent m laws Request.shutdown s.ch ch' e)
          ∙ brought-sent (m.queue s.ch) Request.shutdown
          ∙ append-nil (brought (m.queue s.ch)) in
        rw q o
    ApStep-InOrder {s} (take r ch' up e) o =
        let (q, _) = laws.recv_oldest r s.ch ch' e in
        settle_ap-InOrder (record s { ch = ch' }) (channel r) (answered s.world)
          (step order peer (request_wake (some r)) s.world)
          (ap (λ l. onto l (answered s.world)) (sym (ap brought q)) ∙ looping-InOrder s up o)
          (step-Served order peer (request_wake (some r)) s.world)
    ApStep-InOrder {s} (hear d up) o =
        settle_ap-InOrder s [] (answered s.world) (step order peer (event_wake d) s.world)
          (looping-InOrder s up o) (step-Served order peer (event_wake d) s.world)
    ApStep-InOrder {s} drop o =
        OrderAt-dropped s.phase (brought (m.queue s.ch)) (answered s.world) s.fresh o

    -- In every state that clients and the runner can reach, in whatever order they act and whatever the
    -- daemon does, from an empty channel and a loop that has answered nothing: while the loop runs, the
    -- calls that were made are, in the order in which they were sent, those that were answered, each
    -- once, and then those in the request channel. Behind the loop's end, those that were answered are
    -- the first that were made, in their order and each once.
    pub ApReach-InOrder :
        (ch : C) (w : ApWorld) (s : ApSystem C)
        → m.queue ch ≡ []
        → answered w ≡ []
        → ApReach m order peer (begin_ap ch w) s
        → InOrder s
    ApReach-InOrder ch w s e h here = ap (λ q. onto (brought q) (answered w)) e ∙ h
    ApReach-InOrder ch w s e h (next {t} r st) = ApStep-InOrder st (ApReach-InOrder ch w t e h r)
