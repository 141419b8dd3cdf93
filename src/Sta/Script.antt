-- ===== src/Sta/Script.antt =====
-- Programs that use the `RequestClient` of src/sta/client.rs, each on its own with one runner, as the
-- example src/examples/wifi-sta.rs does: the program's `?` ends it at the first error.
pub mod Shutdowns
pub mod Ends
pub mod Heard
pub mod Finishes
use wifi_ctrl.Sta.Loop.{no_pending}
use wifi_ctrl.Prelude.{ℕ, ◌+◌, List, [], ◌∷◌, Option, none, some, Result, ok, err, ◌≡◌, ◌≢◌}
use wifi_ctrl.Errors.{SocketError, ClientError, ClientResult, from_send_error}
use wifi_ctrl.Socket.Channel.{Mpsc}
use wifi_ctrl.Socket.World.{Peer}
use wifi_ctrl.Sta.Calls.{Call, build_request, Returned}
use wifi_ctrl.Sta.Client.{Request}
use wifi_ctrl.Sta.Station.{Settings}
use wifi_ctrl.Sta.Station.Balance.{StaWorld}
use wifi_ctrl.Sta.System.{
  returned, dropped, System, Step, call, ask_shutdown, take, hear, expire, drop, outcome,
  call_result, looping,
}

-- `Ok(())`, a call whose value is used in the rest, or a shutdown.
pub data Script : Type 0 where
  finish : Script
  ask : (k : Call) → (Returned k → Script) → Script
  shut_down : Script → Script

-- A program that is about to go on, that waits for a call's answer, or that has ended.
pub data App : Type 0 where
  at : Script → App
  waits_for : (k : Call) → ℕ → (Returned k → Script) → App
  done : ClientResult (Unit {0}) → App

-- `ended` is what `run` returned, once the future that owns the station is done.
pub record Program (C : Type 0) : Type 0 where
  pub app : App
  pub system : System C
  pub ended : Option (Result SocketError (Unit {0}))

module _ {C : Type 0} (m : Mpsc Request C) (set : Settings) (peer : Peer) where
  -- The steps that the runner takes by itself.
  abbrev pub IsRunners : {s t : System C} → Step m set peer s t → Type 0
  IsRunners (call k ch' up e) = ⊥
  IsRunners (ask_shutdown ch' up e) = ⊥
  IsRunners (take p r ch' up e) = Unit {0}
  IsRunners (hear p d up) = Unit {0}
  IsRunners (expire p up) = Unit {0}
  IsRunners drop = ⊥

  pub data Move (s : Program C) : Program C → Type 0 where
    -- A call's request is sent, or refused as the receiver is gone.
    calls :
        (k : Call) (f : Returned k → Script) (ch' : C)
        → s.app ≡ at (ask k f)
        → s.system.phase ≢ dropped
        → m.send (build_request k s.system.fresh) s.system.ch ≡ some ch'
        → Move s (record s {
          app = waits_for k s.system.fresh f;
          system = record s.system { ch = ch'; fresh = s.system.fresh + 1 };
        })
    call_refused :
        (k : Call) (f : Returned k → Script)
        → s.app ≡ at (ask k f)
        → s.system.phase ≡ dropped
        → Move s (record s { app = done (err (from_send_error (build_request k s.system.fresh))) })
    -- The call's answer comes, or an error.
    answered :
        (k : Call) (c : ℕ) (f : Returned k → Script) (a : Returned k)
        → s.app ≡ waits_for k c f
        → call_result k (outcome m c s.system) ≡ some (ok a)
        → Move s (record s { app = at (f a) })
    failed :
        (k : Call) (c : ℕ) (f : Returned k → Script) (e : ClientError)
        → s.app ≡ waits_for k c f
        → call_result k (outcome m c s.system) ≡ some (err e)
        → Move s (record s { app = done (err e) })
    -- The shutdown is sent, or refused.
    stops_runner :
        (rest : Script) (ch' : C)
        → s.app ≡ at (shut_down rest)
        → s.system.phase ≢ dropped
        → m.send Request.shutdown s.system.ch ≡ some ch'
        → Move s (record s { app = at rest; system = record s.system { ch = ch' } })
    stop_refused :
        (rest : Script)
        → s.app ≡ at (shut_down rest)
        → s.system.phase ≡ dropped
        → Move s (record s { app = done (err (from_send_error Request.shutdown)) })
    finishes : s.app ≡ at finish → Move s (record s { app = done (ok tt) })
    -- The runner's own steps, and the end of the future that owns it.
    serves :
        (t : System C) (st : Step m set peer s.system t)
        → IsRunners st
        → Move s (record s { system = t })
    leaves :
        (r : Result SocketError (Unit {0}))
        → s.system.phase ≡ returned r
        → Move s (record s { system = record s.system { phase = dropped }; ended = some r })

  pub data Moves (s : Program C) : Program C → Type 0 where
    none_yet : Moves s s
    further : {t u : Program C} → Moves s t → Move t u → Moves s u

-- When the loop begins, a program may have made no call yet, or its first call was put off while the
-- sockets opened.
pub data Launching : Type 0 where
  no_call : Script → Launching
  put_off : (k : Call) → (Returned k → Script) → Launching

abbrev pub script_of : Launching → Script
script_of (no_call script) = script
script_of (put_off k f) = ask k f

abbrev pub app_of : Launching → App
app_of (no_call script) = at script
app_of (put_off k f) = waits_for k 0 f

-- What the request channel holds, and how many calls were made.
abbrev pub requests_of : Launching → List Request
requests_of (no_call script) = []
requests_of (put_off k f) = build_request k 0 ∷ []

abbrev pub made_of : Launching → ℕ
made_of (no_call script) = 0
made_of (put_off k f) = 1

abbrev pub launch : {C : Type 0} → Launching → C → StaWorld → Program C
launch l ch w = record {
  app = app_of l;
  system = record { ch = ch; phase = looping no_pending; world = w; fresh = made_of l };
  ended = none;
}
