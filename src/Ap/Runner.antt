-- ===== src/Ap/Runner.antt =====
-- src/ap/mod.rs: the access point's handlers and event loop.
use wifi_ctrl.Prelude.{ℕ, List, [], ◌∷◌, ◌++◌, Option, none, some, Result, ok, err, map_err}
use wifi_ctrl.Text.{Bytes, codes}
use wifi_ctrl.Errors.{IoError, io, client_channel_closed, parse_config}
use wifi_ctrl.Config.Table.{Table}
use wifi_ctrl.Socket.World.{Peer, M, ◌>>=◌, ◌>>◌, pure, fail, answer, broadcast}
use wifi_ctrl.Socket.Handle.{Parser, request, command}
use wifi_ctrl.Ap.Types.{Status, Config, status_from_response, config_from_response}
use wifi_ctrl.Ap.Events.{Event, read_event}
use wifi_ctrl.Ap.Client.{Request, Answer, text, status_is, config_is, finished, Broadcast}

abbrev pub Ap : Type 0 → Type 0
Ap = M Answer Broadcast

-- The buffer of the control socket.
abbrev pub buffer_size : ℕ
buffer_size = 2048

abbrev pub as_text : Parser Bytes
as_text = ok

abbrev pub status_parser : (Table → Table) → Parser Status
status_parser order s = map_err parse_config (status_from_response order s)

abbrev pub config_parser : (Table → Table) → Parser Config
config_parser order s = map_err parse_config (config_from_response order s)

unfoldable pub handle_event : Event → Ap (Unit {0})
handle_event (Event.ap_sta_connected mac) = broadcast (Broadcast.connected mac)
handle_event (Event.ap_sta_disconnected mac) = broadcast (Broadcast.disconnected mac)
handle_event (Event.unknown msg) = broadcast (Broadcast.unknown_event msg)

-- `format!("SET {key} {value}")`.
abbrev pub set_command : Bytes → Bytes → Bytes
set_command key value = codes "SET " ++ (key ++ b' ' ∷ value)

-- What the `select!` of a round yields: a datagram of the event socket or its failure, or a request or
-- the channel's end.
pub data Wake : Type 0 where
  event_wake : Result IoError Bytes → Wake
  request_wake : Option Request → Wake

-- The loop goes on, or has returned `Ok(())`.
pub data Flow : Type 0 where
  running stopped : Flow

module _ (order : Table → Table) (peer : Peer) where
  unfoldable pub handle_request : Request → Ap (Unit {0})
  handle_request (Request.custom custom c) = do
    data_str ← request buffer_size peer custom as_text
    answer c (text data_str)
  handle_request (Request.status c) = do
    status ← request buffer_size peer (codes "STATUS") (status_parser order)
    answer c (status_is status)
  handle_request (Request.config c) = do
    config ← request buffer_size peer (codes "GET_CONFIG") (config_parser order)
    answer c (config_is config)
  handle_request (Request.enable c) = do
    r ← command buffer_size peer (codes "ENABLE")
    answer c (finished r)
  handle_request (Request.disable c) = do
    r ← command buffer_size peer (codes "DISABLE")
    answer c (finished r)
  handle_request (Request.set_value key value c) = do
    r ← command buffer_size peer (set_command key value)
    answer c (finished r)
  handle_request Request.shutdown = pure tt

  unfoldable pub step : Wake → Ap Flow
  unfolding handle_event
  step (event_wake (err e)) = fail (io e)
  step (event_wake (ok datagram)) = do handle_event (read_event datagram); pure running
  step (request_wake none) = fail client_channel_closed
  step (request_wake (some Request.shutdown)) = pure stopped
  step (request_wake (some r)) = do handle_request r; pure running

  -- The loop, as far as the wakes go.
  unfoldable pub run_internal : List Wake → Ap Flow
  run_internal [] = pure running
  run_internal (wake ∷ wakes) = do
    flow ← step wake
    elim flow [ running ↦ run_internal wakes | stopped ↦ pure stopped ]
