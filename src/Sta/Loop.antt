-- ===== src/Sta/Loop.antt =====
-- `run_internal` of src/sta/mod.rs: the event loop. What the `select!` of a round yields is chosen by
-- the outside, and given as a list of wakes.
pub mod Settled
pub mod Gives
pub mod Drained
pub mod Heard
pub mod Stops
use wifi_ctrl.Prelude.{ℕ, List, [], ◌∷◌, Option, none, some, Result, ok, err}
use wifi_ctrl.Text.{Bytes}
use wifi_ctrl.Errors.{IoError, io, client_channel_closed, timeout}
use wifi_ctrl.Socket.World.{Peer, M, ◌>>=◌, ◌>>◌, pure, fail}
use wifi_ctrl.Sta.Client.{Request}
use wifi_ctrl.Sta.Events.{read_event}
use wifi_ctrl.Sta.Station.{Settings, Pending, Sta, resolve_select, handle_event, handle_request}

-- `EventOrRequest`: a datagram of the event socket or its failure, a request or the channel's end, and
-- the timer of the pending select.
pub data Wake : Type 0 where
  event : Result IoError Bytes → Wake
  request : Option Request → Wake
  select_timeout : Wake

-- The loop goes on, or has returned `Ok(())`.
pub data Flow : Type 0 where
  running stopped : Pending → Flow

module _ (s : Settings) (peer : Peer) where
  -- One round. With no select pending the timer's branch cannot be taken, and its body does nothing.
  unfoldable pub step : Wake → Pending → Sta Flow
  step (event (err e)) p = fail (io e)
  step (event (ok datagram)) p = do
    p' ← handle_event s peer (read_event datagram) p
    pure (running p')
  step (request none) p = fail client_channel_closed
  step (request (some Request.shutdown)) p = pure (stopped p)
  step (request (some r)) p = do p' ← handle_request s peer r p; pure (running p')
  step select_timeout p = do p' ← resolve_select (err timeout) p p.select_request; pure (running p')

  -- The loop, as far as the wakes go.
  unfoldable pub run_internal : List Wake → Pending → Sta Flow
  run_internal [] p = pure (running p)
  run_internal (wake ∷ wakes) p = do
    flow ← step wake p
    elim flow [ running p' ↦ run_internal wakes p' | stopped p' ↦ pure (stopped p') ]

-- `Vec::new()` and `None`.
abbrev pub no_pending : Pending
no_pending = record { scan_requests = []; select_request = none }
