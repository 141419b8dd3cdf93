-- ===== src/Sta/System.antt =====
-- Clients of src/sta/client.rs and one call of `run` of src/sta/mod.rs, interleaved in any order: the
-- clients put requests into the request channel, and the runner's loop takes them out, between events.
-- The steps go from the beginning of the loop to the end of this call, and on to the drop of the station;
-- that its owner cancels it, or calls `run` again, is part of Sta/Life.
pub mod Once
pub mod Told
pub mod View
pub mod Refines
use wifi_ctrl.Prelude.{
  ℕ, ◌+◌, ◌==◌, List, [], ◌∷◌, ◌++◌, Option, none, some, if◌then◌else◌, Result, ok, err, count, ◌≡◌,
  ◌≢◌,
}
use wifi_ctrl.Text.{Bytes}
use wifi_ctrl.Errors.{IoError, SocketError, ClientResult, from_recv_error}
use wifi_ctrl.Socket.Channel.{Mpsc}
use wifi_ctrl.Socket.Channel.Oneshot.{Outcome, got, closed, waits, find_answer, outcome_of}
use wifi_ctrl.Socket.World.{Peer}
use wifi_ctrl.Sta.Calls.{Call, build_request, Returned, receive}
use wifi_ctrl.Sta.Client.{Request, Answer}
use wifi_ctrl.Sta.Loop.{
  Wake, event, request, select_timeout, Flow, running, stopped, step, no_pending,
}
use wifi_ctrl.Sta.Station.{Settings, Pending}
use wifi_ctrl.Sta.Station.Balance.{StaWorld, waiting, channel}

-- The loop runs; this call of `run` has returned; or the `WifiStation` is dropped, and the receiver
-- with it.
pub data Phase : Type 0 where
  looping : Pending → Phase
  returned : Result SocketError (Unit {0}) → Phase
  dropped : Phase

-- `fresh` is the number of the next `oneshot` channel.
pub record System (C : Type 0) : Type 0 where
  pub ch : C
  pub phase : Phase
  pub world : StaWorld
  pub fresh : ℕ

-- The state behind a round of the loop. The loop's variables are dropped when it ends.
abbrev pub settle : {C : Type 0} → System C → Result SocketError Flow × StaWorld → System C
settle s (ok (running p), w) = record s { phase = looping p; world = w }
settle s (ok (stopped p), w) = record s { phase = returned (ok tt); world = w }
settle s (err e, w) = record s { phase = returned (err e); world = w }

-- The channels of the requests in the request channel.
abbrev pub brought : List Request → List ℕ
brought [] = []
brought (r ∷ rs) = channel r ++ brought rs

module _ {C : Type 0} (m : Mpsc Request C) (set : Settings) (peer : Peer) where
  -- In one call of `run`: a client's `send` that returns, a shutdown that is sent, a request that the
  -- loop takes, what the event socket gives, the timer of the pending select, and the end of the
  -- runner's owner.
  pub data Step (s : System C) : System C → Type 0 where
    call :
        (k : Call) (ch' : C)
        → s.phase ≢ dropped
        → m.send (build_request k s.fresh) s.ch ≡ some ch'
        → Step s (record s { ch = ch'; fresh = s.fresh + 1 })
    ask_shutdown :
        (ch' : C)
        → s.phase ≢ dropped
        → m.send Request.shutdown s.ch ≡ some ch'
        → Step s (record s { ch = ch' })
    take :
        (p : Pending) (r : Request) (ch' : C)
        → s.phase ≡ looping p
        → m.recv s.ch ≡ some (r, ch')
        → Step s (settle (record s { ch = ch' }) (step set peer (request (some r)) p s.world))
    hear :
        (p : Pending) (d : Result IoError Bytes)
        → s.phase ≡ looping p
        → Step s (settle s (step set peer (event d) p s.world))
    expire :
        (p : Pending)
        → s.phase ≡ looping p
        → Step s (settle s (step set peer select_timeout p s.world))
    drop : Step s (record s { phase = dropped })

  pub data Reach (s : System C) : System C → Type 0 where
    here : Reach s s
    next : {t u : System C} → Reach s t → Step t u → Reach s u

-- How often the sender of channel `c` is held, by the request channel, which holds it `q` times, or by the
-- loop.
abbrev pub held_at : ℕ → Phase → ℕ → ℕ
held_at c (looping p) q = q + waiting c p
held_at c (returned r) q = q
held_at c dropped q = 0

module _ {C : Type 0} (m : Mpsc Request C) where
  abbrev pub queued : ℕ → System C → ℕ
  queued c s = count c (brought (m.queue s.ch))

  abbrev pub held : ℕ → System C → ℕ
  held c s = held_at c s.phase (queued c s)

  abbrev pub outcome : ℕ → System C → Outcome Answer
  outcome c s = outcome_of (find_answer c s.world.answers) (held c s)

-- The end of `RequestClient::request`: `request.await?`, once the request is sent.
unfoldable pub call_result : (k : Call) → Outcome Answer → Option (ClientResult (Returned k))
call_result k (got a) = receive k a
call_result k closed = some (err from_recv_error)
call_result k waits = none

-- A new channel, and the loop at its start.
abbrev pub begin : {C : Type 0} → C → StaWorld → System C
begin ch w = record { ch = ch; phase = looping no_pending; world = w; fresh = 0 }
