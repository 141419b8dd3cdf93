-- ===== src/Ap/System.antt =====
-- Clients of src/ap/client.rs and the runner of src/ap/mod.rs, interleaved in any order: the clients put
-- requests into the request channel, and the runner's loop takes them out, between events.
pub mod InOrder
pub mod Told
pub mod Refines
use wifi_ctrl.Prelude.{
  ℕ, suc, List, [], ◌∷◌, ◌++◌, Option, none, some, count, Result, ok, err, ◌≡◌, ◌≢◌,
}
use wifi_ctrl.Text.{Bytes}
use wifi_ctrl.Errors.{IoError, SocketError, ClientResult, from_recv_error}
use wifi_ctrl.Config.Table.{Table}
use wifi_ctrl.Socket.Channel.{Mpsc}
use wifi_ctrl.Socket.Channel.Oneshot.{Outcome, got, closed, waits, find_answer, outcome_of}
use wifi_ctrl.Socket.World.{Peer}
use wifi_ctrl.Ap.Calls.{ApCall, build_ap_request, ApReturned, receive_ap}
use wifi_ctrl.Ap.Client.{Request, Answer}
use wifi_ctrl.Ap.Runner.{event_wake, request_wake, Flow, running, stopped, step}
use wifi_ctrl.Ap.Served.{ApWorld, channel}

-- The loop runs; `run` has returned; or the `WifiAp` is dropped, and the receiver with it.
pub data ApPhase : Type 0 where
  looping : ApPhase
  returned : Result SocketError (Unit {0}) → ApPhase
  dropped : ApPhase

-- `fresh` is the number of the next `oneshot` channel.
pub record ApSystem (C : Type 0) : Type 0 where
  pub ch : C
  pub phase : ApPhase
  pub world : ApWorld
  pub fresh : ℕ

-- The state behind a round of the loop.
abbrev pub settle_ap : {C : Type 0} → ApSystem C → Result SocketError Flow × ApWorld → ApSystem C
settle_ap s (ok running, w) = record s { phase = looping; world = w }
settle_ap s (ok stopped, w) = record s { phase = returned (ok tt); world = w }
settle_ap s (err e, w) = record s { phase = returned (err e); world = w }

module _ {C : Type 0} (m : Mpsc Request C) (order : Table → Table) (peer : Peer) where
  -- A client's `send` that returns, a shutdown that is sent, a request that the loop takes, what the
  -- event socket gives, and the end of the runner's owner.
  pub data ApStep (s : ApSystem C) : ApSystem C → Type 0 where
    call :
        (k : ApCall) (ch' : C)
        → s.phase ≢ dropped
        → m.send (build_ap_request k s.fresh) s.ch ≡ some ch'
        → ApStep s (record s { ch = ch'; fresh = suc s.fresh })
    ask_shutdown :
        (ch' : C)
        → s.phase ≢ dropped
        → m.send Request.shutdown s.ch ≡ some ch'
        → ApStep s (record s { ch = ch' })
    take :
        (r : Request) (ch' : C)
        → s.phase ≡ looping
        → m.recv s.ch ≡ some (r, ch')
        → ApStep s
            (settle_ap (record s { ch = ch' }) (step order peer (request_wake (some r)) s.world))
    hear :
        (d : Result IoError Bytes)
        → s.phase ≡ looping
        → ApStep s (settle_ap s (step order peer (event_wake d) s.world))
    drop : ApStep s (record s { phase = dropped })

  pub data ApReach (s : ApSystem C) : ApSystem C → Type 0 where
    here : ApReach s s
    next : {t u : ApSystem C} → ApReach s t → ApStep t u → ApReach s u

-- A new channel, and the loop at its start.
abbrev pub begin_ap : {C : Type 0} → C → ApWorld → ApSystem C
begin_ap ch w = record { ch = ch; phase = looping; world = w; fresh = 0 }

-- The channels of the requests in the request channel.
abbrev pub brought : List Request → List ℕ
brought [] = []
brought (r ∷ rs) = channel r ++ brought rs

module _ {C : Type 0} (m : Mpsc Request C) where
  -- How often the sender of channel `c` is held. The loop holds none between its rounds.
  abbrev pub ap_held_at : ℕ → ApPhase → C → ℕ
  ap_held_at c looping ch = count c (brought (m.queue ch))
  ap_held_at c (returned r) ch = count c (brought (m.queue ch))
  ap_held_at c dropped ch = 0

  abbrev pub ap_outcome : ℕ → ApSystem C → Outcome Answer
  ap_outcome c s = outcome_of (find_answer c s.world.answers) (ap_held_at c s.phase s.ch)

-- The end of `RequestClient::request`: `request.await?`, once the request is sent.
unfoldable pub ap_call_result : (k : ApCall) → Outcome Answer → Option (ClientResult (ApReturned k))
ap_call_result k (got a) = receive_ap k a
ap_call_result k closed = some (err from_recv_error)
ap_call_result k waits = none
