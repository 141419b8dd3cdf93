-- ===== src/Sta/Life/Once.antt =====
-- A station and its clients through all runs: where the channel of each call is.
use wifi_ctrl.Prelude.{
  ℕ, ◌+◌, List, [], ◌∷◌, some, Result, ok, err, count, count-append, map, ◌≡◌, inl, ap, ◌∙◌, arith,
}
use wifi_ctrl.Text.{Bytes}
use wifi_ctrl.Errors.{SocketError}
use wifi_ctrl.Socket.Channel.{Mpsc, IsMpsc}
use wifi_ctrl.Socket.Channel.Room.{send-sent}
use wifi_ctrl.Socket.Open.{receives, Opening, opened, gave_up, opening}
use wifi_ctrl.Socket.World.{Peer}
use wifi_ctrl.Sta.Calls.{build_request}
use wifi_ctrl.Sta.Client.{Request}
use wifi_ctrl.Sta.Life.{
  Life, after_open, after_open_events, after_round, open_round, LifeStep, call, ask_shutdown,
  run_opens, run_fails, waits, puts_off, binds_events, fails_events, waits_events, puts_off_events,
  attached, fails_attach, resent, enters, takes, hears, expires, cancels, cancels_request,
  cancels_event, drops, LifeReach, here, next, newborn,
}
use wifi_ctrl.Sta.Life.Deferred.{count-brought-both, Puts, outside-Puts, received-Puts}
use wifi_ctrl.Sta.Life.Held.{held_in, held_in-sent, held_in-IsRunning, OnceBy, keep, lose}
use wifi_ctrl.Sta.Loop.{request, event, select_timeout, Flow, running, stopped, step}
use wifi_ctrl.Sta.Loop.Settled.{Settled, step-Settled}
use wifi_ctrl.Sta.Station.{Settings, Pending}
use wifi_ctrl.Sta.Station.Balance.{StaWorld, answered, waiting, channel}
use wifi_ctrl.Sta.System.{brought}
use wifi_ctrl.Sta.System.Once.{made, made-suc, build_request-channel, count-brought-append}

module _ {C : Type 0} (m : Mpsc Request C) (c : ℕ) where
  abbrev pub queued_in : Life C → ℕ
  queued_in s = count c (brought (m.queue s.ch))

  abbrev pub LifeOnce : Life C → Type 0
  LifeOnce s =
      OnceBy (answered c s.world) (held_in c s.stage (queued_in s)) (made c s.fresh) s.ended

  -- The same, with `h` in place of what `run` holds.
  abbrev OnceWith : Life C → ℕ → Type 0
  OnceWith s h = OnceBy (answered c s.world) (queued_in s + h) (made c s.fresh) s.ended

  after_open-Once :
      (s : Life C) (k : ℕ) (x : Opening Request)
      → OnceWith s k
      → Puts c k x
      → LifeOnce (after_open s x)
  after_open-Once s k (opened ds) o e = keep _ _ _ _ _ _ _ _ o (omega (arith, e)) (omega arith)
  after_open-Once s k (gave_up x) o e = lose _ _ _ _ _ _ _ _ o (omega arith) (omega arith)
  after_open-Once s k (opening n ds) o e = keep _ _ _ _ _ _ _ _ o (omega (arith, e)) (omega arith)

  after_open_events-Once :
      (s : Life C) (ds : List Request) (k : ℕ) (x : Opening Request)
      → OnceWith s (count c (brought ds) + k)
      → Puts c k x
      → LifeOnce (after_open_events s ds x)
  after_open_events-Once s ds k (opened es) o e =
      keep _ _ _ _ _ _ _ _ o (omega (arith, e)) (omega arith)
  after_open_events-Once s ds k (gave_up x) o e = lose _ _ _ _ _ _ _ _ o (omega arith) (omega arith)
  after_open_events-Once s ds k (opening n es) o e =
      keep _ _ _ _ _ _ _ _ o (omega (arith, e)) (omega arith)

  after_round-Once :
      (s : Life C) (cs : List ℕ) (p : Pending) (x : Result SocketError Flow × StaWorld)
      → OnceWith s (waiting c p + count c cs)
      → Settled c cs s.world p x
      → LifeOnce (after_round s x)
  after_round-Once s cs p (ok (running p'), w) o b =
      keep _ _ _ _ _ _ _ _ o (omega (arith, b)) (omega arith)
  after_round-Once s cs p (ok (stopped p'), w) o b =
      lose _ _ _ _ _ _ _ _ o (omega (arith, b)) (omega arith)
  after_round-Once s cs p (err e, w) o b = lose _ _ _ _ _ _ _ _ o (omega (arith, b)) (omega arith)

  module _ (laws : IsMpsc m) where
    pub sent-queued :
        (s : Life C) (r : Request) (ch' : C)
        → m.send r s.ch ≡ some ch'
        → count c (brought (m.queue ch')) ≡ queued_in s + count c (channel r)
    sent-queued s r ch' e =
        ap (λ l. count c (brought l)) (send-sent m laws r s.ch ch' e)
        ∙ count-brought-append c (m.queue s.ch) r

    taken-queued :
        (s : Life C) (r : Request) (ch' : C)
        → m.recv s.ch ≡ some (r, ch')
        → queued_in s ≡ count c (channel r) + count c (brought (m.queue ch'))
    taken-queued s r ch' e =
        let (q, _) = laws.recv_oldest r s.ch ch' e in
        ap (λ l. count c (brought l)) q ∙ count-append c (channel r) (brought (m.queue ch'))

    module _ (set : Settings) (peer : Peer) (path : Bytes) where
      LifeStep-Once : {s t : Life C} → LifeStep m set peer path s t → LifeOnce s → LifeOnce t
      LifeStep-Once {s} (call k ch' up e) o =
          let grown = sent-queued s (build_request k s.fresh) ch' e in
          let more = held_in-sent c s.stage (queued_in s) (count c (s.fresh ∷ [])) up in
          let one = build_request-channel k s.fresh in
          let counted = made-suc c s.fresh in
          rw (grown, one) (keep _ _ _ _ _ _ _ _ o (omega (arith, more, counted)) (omega arith))
      LifeStep-Once {s} (ask_shutdown ch' up e) o =
          let grown = sent-queued s Request.shutdown ch' e in
          let more = held_in-sent c s.stage (queued_in s) 0 up in
          rw grown (keep _ _ _ _ _ _ _ _ o (omega (arith, more)) (omega arith))
      LifeStep-Once {s} (run_opens r e) o =
          keep _ _ _ _ _ _ _ _ (rw e at o) (omega arith) (omega arith)
      LifeStep-Once {s} (run_fails r x e) o =
          lose _ _ _ _ _ _ _ _ (rw e at o) (omega arith) (omega arith)
      LifeStep-Once {s} (waits n ds h e out) o =
          after_open-Once s (count c (brought ds)) (open_round m set peer path h n ds) (rw e at o)
            (outside-Puts path c n ds h out)
      LifeStep-Once {s} (puts_off n ds r ch' e recvs) o =
          let split_at = taken-queued s r ch' recvs in
          after_open-Once (record s { ch = ch' }) (count c (brought ds) + count c (channel r))
            (open_round m set peer path (receives (some r)) n ds)
            (keep _ _ _ _ _ _ _ _ (rw e at o) (omega (arith, split_at)) (omega arith))
            (received-Puts path c n ds r)
      LifeStep-Once {s} (binds_events ds e) o =
          keep _ _ _ _ _ _ _ _ (rw e at o) (omega arith) (omega arith)
      LifeStep-Once {s} (fails_events ds x e) o =
          lose _ _ _ _ _ _ _ _ (rw e at o) (omega arith) (omega arith)
      LifeStep-Once {s} (waits_events n ds es h e out) o =
          after_open_events-Once s ds (count c (brought es)) (open_round m set peer path h n es)
            (keep _ _ _ _ _ _ _ _ (rw e at o) (omega arith) (omega arith))
            (outside-Puts path c n es h out)
      LifeStep-Once {s} (puts_off_events n ds es r ch' e recvs) o =
          let split_at = taken-queued s r ch' recvs in
          after_open_events-Once (record s { ch = ch' }) ds
            (count c (brought es) + count c (channel r))
            (open_round m set peer path (receives (some r)) n es)
            (keep _ _ _ _ _ _ _ _ (rw e at o) (omega (arith, split_at)) (omega arith))
            (received-Puts path c n es r)
      LifeStep-Once {s} (attached ds es e) o =
          let both = count-brought-both c ds es in
          keep _ _ _ _ _ _ _ _ (rw e at o) (omega (arith, both)) (omega arith)
      LifeStep-Once {s} (fails_attach ds es x e) o =
          lose _ _ _ _ _ _ _ _ (rw e at o) (omega arith) (omega arith)
      LifeStep-Once {s} (resent r rs ch' e sends) o =
          let grown = sent-queued s r ch' sends in
          let split_at = count-append c (channel r) (brought rs) in
          keep _ _ _ _ _ _ _ _ (rw e at o) (omega (arith, grown, split_at)) (omega arith)
      LifeStep-Once {s} (enters e) o = keep _ _ _ _ _ _ _ _ (rw e at o) (omega arith) (omega arith)
      LifeStep-Once {s} (takes p r ch' e recvs) o =
          let split_at = taken-queued s r ch' recvs in
          after_round-Once (record s { ch = ch' }) (channel r) p
            (step set peer (request (some r)) p s.world)
            (keep _ _ _ _ _ _ _ _ (rw e at o) (omega (arith, split_at)) (omega arith))
            (step-Settled c set peer (request (some r)) p s.world)
      LifeStep-Once {s} (hears p d e) o =
          after_round-Once s [] p (step set peer (event d) p s.world)
            (keep _ _ _ _ _ _ _ _ (rw e at o) (omega arith) (omega arith))
            (step-Settled c set peer (event d) p s.world)
      LifeStep-Once {s} (expires p e) o =
          after_round-Once s [] p (step set peer select_timeout p s.world)
            (keep _ _ _ _ _ _ _ _ (rw e at o) (omega arith) (omega arith))
            (step-Settled c set peer select_timeout p s.world)
      LifeStep-Once {s} (cancels up) o =
          let kept = held_in-IsRunning c s.stage (queued_in s) up in
          lose _ _ _ _ _ _ _ _ o (omega (arith, kept)) (omega arith)
      LifeStep-Once {s} (cancels_request p r ch' w e recvs same) o =
          let split_at = taken-queued s r ch' recvs in
          let unanswered : answered c w ≡ answered c s.world =
            ap (λ l. count c (map (λ a. a.0) l)) same in
          lose _ _ _ _ _ _ _ _ (rw e at o) (omega (arith, split_at, unanswered)) (omega arith)
      LifeStep-Once {s} (cancels_event p w e same) o =
          let unanswered : answered c w ≡ answered c s.world =
            ap (λ l. count c (map (λ a. a.0) l)) same in
          lose _ _ _ _ _ _ _ _ (rw e at o) (omega (arith, unanswered)) (omega arith)
      LifeStep-Once {s} drops o = lose _ _ _ _ _ _ _ _ o (omega arith) (omega arith)

      LifeReach-keeps : {s t : Life C} → LifeReach m set peer path s t → LifeOnce s → LifeOnce t
      LifeReach-keeps here o = o
      LifeReach-keeps (next r st) o = LifeStep-Once st (LifeReach-keeps r o)

      -- With channels as documented, whatever clients, the owner, the daemon and the operating system
      -- do, in whatever order, from a station that was made and has answered nothing: until `run` has
      -- returned or been cancelled for the first time, or the station is dropped, each call that was
      -- made is answered once, or its channel is held once, in the request channel, with what was put
      -- off while a socket opens, or by the loop, and not both. Ever after, also while `run` is called
      -- again and again, each is answered or held once at most. No other channel is answered or held.
      pub LifeReach-Once :
          (ch : C) (w : StaWorld) (s : Life C)
          → m.queue ch ≡ []
          → answered c w ≡ 0
          → LifeReach m set peer path (newborn ch w) s
          → LifeOnce s
      LifeReach-Once ch w s e h r = LifeReach-keeps r (rw e (inl (ground (arith, h))))
