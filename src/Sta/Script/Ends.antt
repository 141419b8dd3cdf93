-- ===== src/Sta/Script/Ends.antt =====
-- Programs that ask, and shut the runner of src/sta/mod.rs down as their last act: how the runner ends.
use wifi_ctrl.Prelude.{
  ℕ, ◌+◌, ◌≤◌, [], ◌∷◌, Option, none, some, Result, ok, err, Bool, true, false, ◌≡◌, inl, inr, refl,
  arith,
}
use mathlib.Core.Path.{subst}
use wifi_ctrl.Errors.{SocketError}
use wifi_ctrl.Socket.Channel.{Mpsc, IsMpsc}
use wifi_ctrl.Socket.World.{Peer}
use wifi_ctrl.Sta.Calls.{build_request, Returned}
use wifi_ctrl.Sta.Client.{Request, is_shutdown}
use wifi_ctrl.Sta.Loop.{request, event, select_timeout, Flow, running, stopped, step}
use wifi_ctrl.Sta.Loop.Stops.{GoesOn, hear-GoesOn, expire-GoesOn, take-GoesOn, take_shutdown-eq}
use wifi_ctrl.Sta.Script.{
  Script, finish, ask, shut_down, App, at, waits_for, done, Program, IsRunners, Move, calls,
  call_refused, answered, failed, stops_runner, stop_refused, finishes, serves, leaves, Moves,
  none_yet, further, Launching, no_call, put_off, script_of, requests_of, launch,
}
use wifi_ctrl.Sta.Script.Shutdowns.{
  shutdowns, build_request-shutdowns, shutdown-shutdowns, sent-shutdowns,
}
use wifi_ctrl.Sta.Station.{Settings, Pending}
use wifi_ctrl.Sta.Station.Balance.{StaWorld}
use wifi_ctrl.Sta.System.{
  Phase, looping, returned, dropped, System, settle, Step, call, ask_shutdown, drop, take, hear,
  expire,
}

-- The rest of a program is calls, and one shutdown at its end.
abbrev pub ShutsDownLast : Script → Type 0
ShutsDownLast finish = ⊥
ShutsDownLast (ask k f) = (a : Returned k) → ShutsDownLast (f a)
ShutsDownLast (shut_down finish) = Unit {0}
ShutsDownLast (shut_down (ask k f)) = ⊥
ShutsDownLast (shut_down (shut_down rest)) = ⊥

-- Whether the shutdown has been sent.
abbrev pub sent_by : App → Bool
sent_by (at finish) = true
sent_by (at (ask k f)) = false
sent_by (at (shut_down rest)) = false
sent_by (waits_for k c f) = false
sent_by (done (ok x)) = true
sent_by (done (err e)) = false

-- With a shutdown sent, `run` may end in any way; with none, only by a socket error.
abbrev pub EndsBy : Bool → Result SocketError (Unit {0}) → Type 0
EndsBy true x = Unit {0}
EndsBy false (ok x) = ⊥
EndsBy false (err e) = Unit {0}

-- `n` shutdowns are in the channel of a runner that still loops.
abbrev pub HasSent : Bool → ℕ → Type 0
HasSent true n = 1 ≤ n
HasSent false n = n ≡ 0

abbrev pub RunnerAt : Bool → Phase → ℕ → Option (Result SocketError (Unit {0})) → Type 0
RunnerAt sent (looping p) n ended = HasSent sent n
RunnerAt sent (returned x) n ended = EndsBy sent x
RunnerAt sent dropped n none = ⊥
RunnerAt sent dropped n (some x) = EndsBy sent x

EndsBy-err : (sent : Bool) (e : SocketError) → EndsBy sent (err e)
EndsBy-err true e = tt
EndsBy-err false e = tt

HasSent-some : (sent : Bool) (n : ℕ) → 1 ≤ n → HasSent sent n → EndsBy sent (ok tt)
HasSent-some true n l h = tt
HasSent-some false n l h = absurd (omega arith)

RunnerAt-eq :
    (sent : Bool) (ph : Phase) (n k : ℕ) (ended : Option (Result SocketError (Unit {0})))
    → n ≡ k
    → RunnerAt sent ph n ended
    → RunnerAt sent ph k ended
RunnerAt-eq sent ph n k ended e h = subst (λ j. RunnerAt sent ph j ended) e h

-- A shutdown is sent.
RunnerAt-stop :
    (ph : Phase) (n : ℕ) (ended : Option (Result SocketError (Unit {0})))
    → RunnerAt false ph n ended
    → RunnerAt true ph (n + 1) ended
RunnerAt-stop (looping p) n ended h = omega arith
RunnerAt-stop (returned x) n ended h = tt
RunnerAt-stop dropped n none h = h
RunnerAt-stop dropped n (some x) h = tt

-- What is left of a program that shuts down last.
abbrev Rest : App → Type 0
Rest (at finish) = Unit {0}
Rest (at (ask k f)) = ShutsDownLast (ask k f)
Rest (at (shut_down rest)) = ShutsDownLast (shut_down rest)
Rest (waits_for k c f) = (a : Returned k) → ShutsDownLast (f a)
Rest (done r) = Unit {0}

ShutsDownLast-finish : (rest : Script) → ShutsDownLast (shut_down rest) → rest ≡ finish
ShutsDownLast-finish finish l = refl
ShutsDownLast-finish (ask k f) l = elim l [ ]
ShutsDownLast-finish (shut_down rest) l = elim l [ ]

module _ {C : Type 0} (m : Mpsc Request C) where
  abbrev pub Runner : Bool → Option (Result SocketError (Unit {0})) → System C → Type 0
  Runner sent ended s = RunnerAt sent s.phase (shutdowns (m.queue s.ch)) ended

  settle-Runner :
      (sent : Bool) (ended : Option (Result SocketError (Unit {0}))) (s : System C)
      (x : Result SocketError Flow × StaWorld)
      → GoesOn x
      → HasSent sent (shutdowns (m.queue s.ch))
      → Runner sent ended (settle s x)
  settle-Runner sent ended s (ok (running p), w) g h = h
  settle-Runner sent ended s (ok (stopped p), w) g h = elim g [ ]
  settle-Runner sent ended s (err e, w) g h = EndsBy-err sent e

  looping-HasSent :
      (sent : Bool) (ended : Option (Result SocketError (Unit {0}))) (s : System C) (p : Pending)
      → s.phase ≡ looping p
      → Runner sent ended s
      → HasSent sent (shutdowns (m.queue s.ch))
  looping-HasSent sent ended s p e h = rw e at h

  module _ (laws : IsMpsc m) (set : Settings) (peer : Peer) where
    Step-Runner :
        {s t : System C} (sent : Bool) (ended : Option (Result SocketError (Unit {0})))
        (st : Step m set peer s t)
        → IsRunners m set peer st
        → Runner sent ended s
        → Runner sent ended t
    unfolding is_shutdown
    Step-Runner {s} sent ended (take p r ch' up e) i h =
        let (q, _) = laws.recv_oldest r s.ch ch' e in
        let has = rw q at (looping-HasSent sent ended s p up h) in
        elim (take-GoesOn set peer p s.world r) [
          | inl stop ↦
              rw (stop, take_shutdown-eq set peer p s.world)
                (HasSent-some sent _ (omega arith) (rw stop at has))
          | inr (other, g) ↦
              settle-Runner sent ended (record s { ch = ch' })
                (step set peer (request (some r)) p s.world) g
                (subst (HasSent sent) (omega arith) (rw other at has))
        ]
    Step-Runner {s} sent ended (hear p d up) i h =
        settle-Runner sent ended s (step set peer (event d) p s.world)
          (hear-GoesOn set peer p s.world d) (looping-HasSent sent ended s p up h)
    Step-Runner {s} sent ended (expire p up) i h =
        settle-Runner sent ended s (step set peer select_timeout p s.world)
          (expire-GoesOn set peer p s.world) (looping-HasSent sent ended s p up h)
    Step-Runner sent ended (call k ch' up e) i h = elim i [ ]
    Step-Runner sent ended (ask_shutdown ch' up e) i h = elim i [ ]
    Step-Runner sent ended drop i h = elim i [ ]

    -- Where the program stands, and what became of the runner.
    abbrev Stage : Program C → Type 0
    Stage s = Rest s.app × Runner (sent_by s.app) s.ended s.system

    at-Stage :
        (s : Program C) (script : Script) (t : System C)
        → ShutsDownLast script
        → Runner false s.ended t
        → Stage (record s { app = at script; system = t })
    at-Stage s finish t l h = elim l [ ]
    at-Stage s (ask k f) t l h = (l, h)
    at-Stage s (shut_down rest) t l h = (l, h)

    Move-Stage : {s t : Program C} → Move m set peer s t → Stage s → Stage t
    Move-Stage {s} (calls k f ch' e up sends) g =
        let (l, h) = rw e at g in
        let grown = sent-shutdowns m s.system (build_request k s.system.fresh) ch' laws sends in
        let no_shutdown = build_request-shutdowns k s.system.fresh in
        (l, RunnerAt-eq false s.system.phase _ _ s.ended (omega (arith, grown, no_shutdown)) h)
    Move-Stage {s} (call_refused k f e gone) g = let (l, h) = rw e at g in (tt, h)
    Move-Stage {s} (answered k c f a e r) g =
        let (l, h) = rw e at g in at-Stage s (f a) s.system (l a) h
    Move-Stage {s} (failed k c f x e r) g = let (l, h) = rw e at g in (tt, h)
    Move-Stage {s} (stops_runner rest ch' e up sends) g =
        let (l, h) = rw e at g in
        let grown = sent-shutdowns m s.system Request.shutdown ch' laws sends in
        let one : shutdowns (Request.shutdown ∷ []) ≡ 1 = shutdown-shutdowns in
        rw (ShutsDownLast-finish rest l) (
          tt,
          RunnerAt-eq true s.system.phase _ _ s.ended (omega (arith, grown, one))
              (RunnerAt-stop s.system.phase _ s.ended h),
        )
    Move-Stage {s} (stop_refused rest e gone) g = let (l, h) = rw e at g in (tt, h)
    Move-Stage {s} (finishes e) g = let (l, h) = rw e at g in (tt, h)
    Move-Stage {s} (serves t st i) (l, h) = (l, Step-Runner (sent_by s.app) s.ended st i h)
    Move-Stage {s} (leaves r e) (l, h) = (l, rw e at h)

    Moves-Stage : {s t : Program C} → Moves m set peer s t → Stage s → Stage t
    Moves-Stage none_yet g = g
    Moves-Stage (further r mv) g = Move-Stage mv (Moves-Stage r g)

    launch-Stage :
        (l : Launching) (ch : C) (w : StaWorld)
        → ShutsDownLast (script_of l)
        → m.queue ch ≡ requests_of l
        → Stage (launch l ch w)
    launch-Stage (no_call script) ch w last e =
        at-Stage (launch (no_call script) ch w) script (launch (no_call script) ch w).system last
          (rw e refl)
    launch-Stage (put_off k f) ch w last e = (last, rw e (build_request-shutdowns k 0))

    -- For a program that makes calls, and shuts the runner down as its last act, in every state that
    -- it and the runner reach from the start of the loop: unless the program has sent its shutdown, also
    -- when an error has ended it, the loop runs with no shutdown in its channel, or a socket error has
    -- ended it.
    pub Moves-Runner :
        (l : Launching) (ch : C) (w : StaWorld) (s : Program C)
        → ShutsDownLast (script_of l)
        → m.queue ch ≡ requests_of l
        → Moves m set peer (launch l ch w) s
        → Runner (sent_by s.app) s.ended s.system
    Moves-Runner l ch w s last e r = (Moves-Stage r (launch-Stage l ch w last e)).1
