-- ===== src/Sta/Life.antt =====
-- The whole life of a `WifiStation` of src/sta/mod.rs with its clients: `run` from the opening of its
-- sockets to its end, as often as its owner calls it, with calls at any time in between. `run` borrows
-- the station: its owner can drop a run that has not returned, keep the station and call `run` again.
pub mod Deferred
pub mod Held
pub mod Once
pub mod Hangs
pub mod Waits
use wifi_ctrl.Prelude.{ℕ, ◌+◌, List, [], ◌∷◌, ◌++◌, Option, none, some, Result, ok, err, ◌≡◌, ◌≢◌}
use wifi_ctrl.Text.{Bytes}
use wifi_ctrl.Errors.{IoError, SocketError, io}
use wifi_ctrl.Socket.Channel.{Mpsc}
use wifi_ctrl.Socket.Open.{
  Happening, connects, refused, receives, deadline, Opening, opened, gave_up, opening, wait_open,
}
use wifi_ctrl.Socket.World.{Peer, broadcast}
use wifi_ctrl.Sta.Calls.{Call, build_request}
use wifi_ctrl.Sta.Client.{Request, Broadcast, is_shutdown}
use wifi_ctrl.Sta.Loop.{event, request, select_timeout, Flow, running, stopped, step, no_pending}
use wifi_ctrl.Sta.Station.{Settings, Pending}
use wifi_ctrl.Sta.Station.Balance.{StaWorld}

-- Where `run` stands, with the requests that it has put off: it is not running, with what it returned,
-- or nothing if it was not called or did not return; it waits for the control socket, after some
-- refusals; that is open; it waits for the event socket; that is open, and "ATTACH" is to be sent; it
-- sends the rest of the requests back; or it loops. Or the station is dropped.
pub data Stage : Type 0 where
  idle : Option (Result SocketError (Unit {0})) → Stage
  opens : ℕ → List Request → Stage
  connected : List Request → Stage
  opens_events : ℕ → List Request → List Request → Stage
  attaches : List Request → List Request → Stage
  resends : List Request → Stage
  loops : Pending → Stage
  gone : Stage

-- `run` was called, and has not returned.
abbrev pub IsRunning : Stage → Type 0
IsRunning (idle r) = ⊥
IsRunning (opens n ds) = Unit {0}
IsRunning (connected ds) = Unit {0}
IsRunning (opens_events n ds es) = Unit {0}
IsRunning (attaches ds es) = Unit {0}
IsRunning (resends rs) = Unit {0}
IsRunning (loops p) = Unit {0}
IsRunning gone = ⊥

-- `ended` counts the runs that have returned or were cancelled, and the drop of the station.
pub record Life (C : Type 0) : Type 0 where
  pub ch : C
  pub stage : Stage
  pub world : StaWorld
  pub fresh : ℕ
  pub ended : ℕ

-- `run` returns, and drops what it holds.
abbrev pub give_up : {C : Type 0} → Life C → SocketError → Life C
give_up s e = record s { stage = idle (some (err e)); ended = s.ended + 1 }

-- The owner drops the future of `run` before it has returned: what it held is dropped with it, and the
-- station is left with its request channel.
abbrev pub run_cancelled : {C : Type 0} → Life C → Life C
run_cancelled s = record s { stage = idle none; ended = s.ended + 1 }

-- The owner drops the station, and a run of it that has not returned.
abbrev pub station_dropped : {C : Type 0} → Life C → Life C
station_dropped s = record s { stage = gone; ended = s.ended + 1 }

-- Behind something that happened while a socket opens.
abbrev pub after_open : {C : Type 0} → Life C → Opening Request → Life C
after_open s (opened ds) = record s { stage = connected ds }
after_open s (gave_up e) = give_up s e
after_open s (opening n ds) = record s { stage = opens n ds }

abbrev pub after_open_events : {C : Type 0} → Life C → List Request → Opening Request → Life C
after_open_events s ds (opened es) = record s { stage = attaches ds es }
after_open_events s ds (gave_up e) = give_up s e
after_open_events s ds (opening n es) = record s { stage = opens_events n ds es }

-- Behind a round of the loop.
abbrev pub after_round : {C : Type 0} → Life C → Result SocketError Flow × StaWorld → Life C
after_round s (ok (running p), w) = record s { stage = loops p; world = w }
after_round s (ok (stopped p), w) = record s {
  stage = idle (some (ok tt));
  world = w;
  ended = s.ended + 1;
}
after_round s (err e, w) = give_up (record s { world = w }) e

-- What does not come out of the request channel.
abbrev pub IsOutside : Happening Request → Type 0
IsOutside connects = Unit {0}
IsOutside (refused e) = Unit {0}
IsOutside (receives r) = ⊥
IsOutside deadline = Unit {0}

module _ {C : Type 0} (m : Mpsc Request C) (set : Settings) (peer : Peer) (path : Bytes) where
  -- One happening while a socket opens, with `n` refusals before and the requests `ds` put off.
  abbrev pub open_round : Happening Request → ℕ → List Request → Opening Request
  open_round h n ds = wait_open is_shutdown path (h ∷ []) n ds

  pub data LifeStep (s : Life C) : Life C → Type 0 where
    -- The clients.
    call :
        (k : Call) (ch' : C)
        → s.stage ≢ gone
        → m.send (build_request k s.fresh) s.ch ≡ some ch'
        → LifeStep s (record s { ch = ch'; fresh = s.fresh + 1 })
    ask_shutdown :
        (ch' : C)
        → s.stage ≢ gone
        → m.send Request.shutdown s.ch ≡ some ch'
        → LifeStep s (record s { ch = ch' })
    -- `run` is called, and its first socket is bound or not.
    run_opens :
        (r : Option (Result SocketError (Unit {0})))
        → s.stage ≡ idle r
        → LifeStep s (record s { stage = opens 0 [] })
    run_fails :
        (r : Option (Result SocketError (Unit {0}))) (e : IoError)
        → s.stage ≡ idle r
        → LifeStep s (give_up s (io e))
    -- While the control socket opens.
    waits :
        (n : ℕ) (ds : List Request) (h : Happening Request)
        → s.stage ≡ opens n ds
        → IsOutside h
        → LifeStep s (after_open s (open_round h n ds))
    puts_off :
        (n : ℕ) (ds : List Request) (r : Request) (ch' : C)
        → s.stage ≡ opens n ds
        → m.recv s.ch ≡ some (r, ch')
        → LifeStep s (after_open (record s { ch = ch' }) (open_round (receives (some r)) n ds))
    -- The event socket is bound or not.
    binds_events :
        (ds : List Request)
        → s.stage ≡ connected ds
        → LifeStep s (record s { stage = opens_events 0 ds [] })
    fails_events :
        (ds : List Request) (e : IoError) → s.stage ≡ connected ds → LifeStep s (give_up s (io e))
    -- While it opens.
    waits_events :
        (n : ℕ) (ds es : List Request) (h : Happening Request)
        → s.stage ≡ opens_events n ds es
        → IsOutside h
        → LifeStep s (after_open_events s ds (open_round h n es))
    puts_off_events :
        (n : ℕ) (ds es : List Request) (r : Request) (ch' : C)
        → s.stage ≡ opens_events n ds es
        → m.recv s.ch ≡ some (r, ch')
        → LifeStep s
            (after_open_events (record s { ch = ch' }) ds (open_round (receives (some r)) n es))
    -- "ATTACH" is sent or not.
    attached :
        (ds es : List Request)
        → s.stage ≡ attaches ds es
        → LifeStep s (record s { stage = resends (ds ++ es) })
    fails_attach :
        (ds es : List Request) (e : IoError)
        → s.stage ≡ attaches ds es
        → LifeStep s (give_up s (io e))
    -- A request goes back into the channel; behind the last the loop begins, on a new socket.
    resent :
        (r : Request) (rs : List Request) (ch' : C)
        → s.stage ≡ resends (r ∷ rs)
        → m.send r s.ch ≡ some ch'
        → LifeStep s (record s { ch = ch'; stage = resends rs })
    enters :
        s.stage ≡ resends []
        → LifeStep s (record s {
          stage = loops no_pending;
          world = (broadcast Broadcast.ready (record s.world { inbox = [] })).1;
        })
    -- The rounds of the loop.
    takes :
        (p : Pending) (r : Request) (ch' : C)
        → s.stage ≡ loops p
        → m.recv s.ch ≡ some (r, ch')
        → LifeStep s
            (after_round (record s { ch = ch' }) (step set peer (request (some r)) p s.world))
    hears :
        (p : Pending) (d : Result IoError Bytes)
        → s.stage ≡ loops p
        → LifeStep s (after_round s (step set peer (event d) p s.world))
    expires :
        (p : Pending)
        → s.stage ≡ loops p
        → LifeStep s (after_round s (step set peer select_timeout p s.world))
    -- The owner cancels the run: where it waits between rounds; or within a round, which has taken a
    -- request or heard a message, has done some of its work on the sockets, and answered nothing yet.
    cancels : IsRunning s.stage → LifeStep s (run_cancelled s)
    cancels_request :
        (p : Pending) (r : Request) (ch' : C) (w : StaWorld)
        → s.stage ≡ loops p
        → m.recv s.ch ≡ some (r, ch')
        → w.answers ≡ s.world.answers
        → LifeStep s (run_cancelled (record s { ch = ch'; world = w }))
    cancels_event :
        (p : Pending) (w : StaWorld)
        → s.stage ≡ loops p
        → w.answers ≡ s.world.answers
        → LifeStep s (run_cancelled (record s { world = w }))
    drops : LifeStep s (station_dropped s)

  pub data LifeReach (s : Life C) : Life C → Type 0 where
    here : LifeReach s s
    next : {t u : Life C} → LifeReach s t → LifeStep t u → LifeReach s u

-- A station that was made, with clients, and not run.
abbrev pub newborn : {C : Type 0} → C → StaWorld → Life C
newborn ch w = record { ch = ch; stage = idle none; world = w; fresh = 0; ended = 0 }
