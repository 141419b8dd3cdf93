-- ===== src/Sta/Life/Waits.antt =====
-- A call of src/sta/client.rs to a station whose `run` is not running.
use wifi_ctrl.Prelude.{
  ℕ, ◌+◌, ◌≤◌, ◌<◌, List, [], none, some, Option, Result, ok, err, count, ◌≡◌, ◌⊎◌, inl, inr, refl,
  ap, ◌∙◌, arith,
}
use wifi_ctrl.Text.{Bytes}
use wifi_ctrl.Errors.{SocketError}
use wifi_ctrl.Socket.Channel.{Mpsc, IsMpsc}
use wifi_ctrl.Socket.Channel.Oneshot.{
  Outcome, find_answer, outcome_of, find_answer-unanswered, outcome_of-waits,
}
use wifi_ctrl.Socket.Open.{Opening, opened, gave_up, opening}
use wifi_ctrl.Socket.World.{Peer}
use wifi_ctrl.Sta.Calls.{Call, build_request}
use wifi_ctrl.Sta.Client.{Request, Answer}
use wifi_ctrl.Sta.Life.{
  idle, IsRunning, Life, after_open, after_open_events, after_round, LifeStep, call, ask_shutdown,
  run_opens, run_fails, puts_off, binds_events, fails_events, waits_events, puts_off_events,
  attached, fails_attach, resent, enters, takes, hears, expires, cancels, cancels_request,
  cancels_event, drops, LifeReach, here, next, newborn,
}
use wifi_ctrl.Sta.Life.Held.{held_in}
use wifi_ctrl.Sta.Life.Once.{LifeReach-Once, queued_in, sent-queued}
use wifi_ctrl.Sta.Loop.{Flow, running, stopped}
use wifi_ctrl.Sta.Station.{Settings}
use wifi_ctrl.Sta.Station.Balance.{StaWorld, answered, channel}
use wifi_ctrl.Sta.System.Once.{made, build_request-channel}

-- Behind `ended` runs, either `run` was called again, and is running or has ended, or the station was
-- dropped.
abbrev pub Again : {C : Type 0} → ℕ → Life C → Type 0
Again n s = IsRunning s.stage ⊎ (n < s.ended)

module _ {C : Type 0} (m : Mpsc Request C) where
  -- What the receiver of the call of channel `c` gets.
  abbrev pub life_outcome : ℕ → Life C → Outcome Answer
  life_outcome c s =
      outcome_of (find_answer c s.world.answers) (held_in c s.stage (queued_in m c s))

  -- `run` is not running, and nothing has answered the call, which is in the request channel.
  abbrev Unheard : ℕ → Life C → Type 0
  Unheard c s =
      ((r : Option (Result SocketError (Unit {0}))) × (s.stage ≡ idle r))
      × (1 ≤ queued_in m c s)
      × (find_answer c s.world.answers ≡ none)

  -- No fewer runs have ended in `t`, and `run` was called or has ended, or the station was dropped.
  abbrev Later : ℕ → Life C → Type 0
  Later k t = (k ≤ t.ended) × Again k t

  after_open-Later : (s : Life C) (x : Opening Request) → Later s.ended (after_open s x)
  after_open-Later s (opened ds) = (omega arith, inl tt)
  after_open-Later s (gave_up e) = (omega arith, inr (omega arith))
  after_open-Later s (opening n ds) = (omega arith, inl tt)

  after_open_events-Later :
      (s : Life C) (ds : List Request) (x : Opening Request)
      → Later s.ended (after_open_events s ds x)
  after_open_events-Later s ds (opened es) = (omega arith, inl tt)
  after_open_events-Later s ds (gave_up e) = (omega arith, inr (omega arith))
  after_open_events-Later s ds (opening n es) = (omega arith, inl tt)

  after_round-Later :
      (s : Life C) (x : Result SocketError Flow × StaWorld) → Later s.ended (after_round s x)
  after_round-Later s (ok (running p), w) = (omega arith, inl tt)
  after_round-Later s (ok (stopped p), w) = (omega arith, inr (omega arith))
  after_round-Later s (err e, w) = (omega arith, inr (omega arith))

  -- A client has sent a request.
  abbrev Grown : ℕ → Life C → Life C → Type 0
  Grown c s t =
      (t.stage ≡ s.stage)
      × (t.world ≡ s.world)
      × (queued_in m c s ≤ queued_in m c t)
      × (t.ended ≡ s.ended)

  -- The call waits, or `run` was called again or the station dropped.
  abbrev Waiting : ℕ → ℕ → Life C → Type 0
  Waiting c k t = (k ≤ t.ended) × (Unheard c t ⊎ Again k t)

  Grown-Waiting : (c k : ℕ) (s t : Life C) → Grown c s t → Waiting c k s → Waiting c k t
  Grown-Waiting c k s t (g, w, q, n) (l, inl ((r, e), held, f)) = (
    omega (arith, n),
    inl ((r, g ∙ e), omega (arith, q, held), ap (λ x. find_answer c x.answers) w ∙ f),
  )
  Grown-Waiting c k s t (g, w, q, n) (l, inr (inl up)) =
      (omega (arith, n), inr (inl (rw (← g) at up)))
  Grown-Waiting c k s t (g, w, q, n) (l, inr (inr more)) =
      (omega (arith, n), inr (inr (omega (arith, n))))

  Later-Waiting : (c k : ℕ) (s t : Life C) → Later s.ended t → k ≤ s.ended → Waiting c k t
  Later-Waiting c k s t (l, inl up) h = (omega arith, inr (inl up))
  Later-Waiting c k s t (l, inr more) h = (omega arith, inr (inr (omega arith)))

  module _ (laws : IsMpsc m) (set : Settings) (peer : Peer) (path : Bytes) where
    sent-Grown :
        (c n : ℕ) (s : Life C) (r : Request) (ch' : C)
        → m.send r s.ch ≡ some ch'
        → Grown c s (record s { ch = ch'; fresh = n })
    sent-Grown c n s r ch' e =
        let grown = sent-queued m c laws s r ch' e in (refl, refl, omega (arith, grown), refl)

    -- Every step is a client's, or one of `run` and its owner.
    LifeStep-moves :
        {s t : Life C} (c : ℕ) → LifeStep m set peer path s t → Grown c s t ⊎ Later s.ended t
    LifeStep-moves {s} c (call k ch' up e) =
        inl (sent-Grown c (s.fresh + 1) s (build_request k s.fresh) ch' e)
    LifeStep-moves {s} c (ask_shutdown ch' up e) =
        inl (sent-Grown c s.fresh s Request.shutdown ch' e)
    LifeStep-moves c (run_opens r e) = inr (omega arith, inl tt)
    LifeStep-moves c (run_fails r x e) = inr (omega arith, inr (omega arith))
    LifeStep-moves {s} c (LifeStep.waits n ds h e out) = inr (after_open-Later s _)
    LifeStep-moves {s} c (puts_off n ds r ch' e recvs) =
        inr (after_open-Later (record s { ch = ch' }) _)
    LifeStep-moves c (binds_events ds e) = inr (omega arith, inl tt)
    LifeStep-moves c (fails_events ds x e) = inr (omega arith, inr (omega arith))
    LifeStep-moves {s} c (waits_events n ds es h e out) = inr (after_open_events-Later s ds _)
    LifeStep-moves {s} c (puts_off_events n ds es r ch' e recvs) =
        inr (after_open_events-Later (record s { ch = ch' }) ds _)
    LifeStep-moves c (attached ds es e) = inr (omega arith, inl tt)
    LifeStep-moves c (fails_attach ds es x e) = inr (omega arith, inr (omega arith))
    LifeStep-moves c (resent r rs ch' e sends) = inr (omega arith, inl tt)
    LifeStep-moves c (enters e) = inr (omega arith, inl tt)
    LifeStep-moves {s} c (takes p r ch' e recvs) = inr (after_round-Later (record s { ch = ch' }) _)
    LifeStep-moves {s} c (hears p d e) = inr (after_round-Later s _)
    LifeStep-moves {s} c (expires p e) = inr (after_round-Later s _)
    LifeStep-moves c (cancels up) = inr (omega arith, inr (omega arith))
    LifeStep-moves c (cancels_request p r ch' w e recvs same) = inr (omega arith, inr (omega arith))
    LifeStep-moves c (cancels_event p w e same) = inr (omega arith, inr (omega arith))
    LifeStep-moves c drops = inr (omega arith, inr (omega arith))

    LifeReach-Waiting :
        {s t : Life C} (c k : ℕ) → LifeReach m set peer path s t → Waiting c k s → Waiting c k t
    LifeReach-Waiting c k here h = h
    LifeReach-Waiting c k (next {t = u} {u = v} r st) h =
        let before = LifeReach-Waiting c k r h in
        elim (LifeStep-moves c st) [
          | inl grown ↦ Grown-Waiting c k u v grown before
          | inr later ↦ Later-Waiting c k u v later before.0
        ]

    -- When `run` is not running, because it was not called yet, has returned or was cancelled, in a state
    -- that was reached from a station that was made, and a client's call can still send its request: in
    -- every state that can be reached behind the call, `run` is not running and the call waits; or the
    -- owner has called `run` again, and it is running or has ended; or the owner has dropped the station.
    pub idle-waits :
        (ch ch' : C) (w : StaWorld) (s t : Life C) (k : Call)
        (x : Option (Result SocketError (Unit {0})))
        → m.queue ch ≡ []
        → answered s.fresh w ≡ 0
        → LifeReach m set peer path (newborn ch w) s
        → s.stage ≡ idle x
        → m.send (build_request k s.fresh) s.ch ≡ some ch'
        → LifeReach m set peer path (record s { ch = ch'; fresh = s.fresh + 1 }) t
        → (((y : Option (Result SocketError (Unit {0}))) × (t.stage ≡ idle y))
            × (life_outcome s.fresh t ≡ Outcome.waits))
          ⊎ Again s.ended t
    idle-waits ch ch' w s t k x e h r ph sends r' =
        let o = LifeReach-Once m s.fresh laws set peer path ch w s e h r in
        let grown = sent-queued m s.fresh laws s (build_request k s.fresh) ch' sends in
        let own : count s.fresh (channel (build_request k s.fresh)) ≡ 1 =
          ap (count s.fresh) (build_request-channel k s.fresh) ∙ ground arith in
        let unmade : made s.fresh s.fresh ≡ 0 = ground arith in
        let unanswered =
          find_answer-unanswered s.fresh s.world.answers (omega (arith, o, unmade)) in
        elim (LifeReach-Waiting s.fresh s.ended r'
          (omega arith, inl ((x, ph), omega (arith, grown, own), unanswered))).1 [
            | inl ((y, ph'), q, f) ↦
                let kept : held_in s.fresh t.stage (queued_in m s.fresh t) ≡ queued_in m s.fresh t =
                  ap (λ z. held_in s.fresh z (queued_in m s.fresh t)) ph' in
                let still =
                  outcome_of-waits (held_in s.fresh t.stage (queued_in m s.fresh t))
                    (omega (arith, kept, q)) in
                inl (
                  (y, ph'),
                  ap (λ a. outcome_of a (held_in s.fresh t.stage (queued_in m s.fresh t))) f
                      ∙ still,
                )
            | inr again ↦ inr again
          ]
