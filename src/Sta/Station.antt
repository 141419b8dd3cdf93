-- ===== src/Sta/Station.antt =====
-- src/sta/mod.rs: the station's handlers and event loop.
pub mod Quiet
pub mod Balance
pub mod Gives
pub mod Select
pub mod Untold
use wifi_ctrl.Prelude.{
  ℕ, Bool, true, false, ◌||◌, List, [], ◌∷◌, ◌++◌, Option, none, some, ◌==◌, if◌then◌else◌, Result,
  ok, err,
}
use wifi_ctrl.Text.{Bytes, codes, bytes_eq}
use wifi_ctrl.Text.Hex.{Hex}
use wifi_ctrl.Text.Number.{parse_unsigned, usize_max}
use wifi_ctrl.Errors.{
  IoError, SocketError, io, client_channel_closed, ParseError, parse_int, ClientResult, failed,
  timeout, pending_select,
}
use wifi_ctrl.Prelude
use wifi_ctrl.Config.Table.{Table}
use wifi_ctrl.Socket.World.{Peer, World, M, ◌>>=◌, ◌>>◌, pure, fail, answer, broadcast}
use wifi_ctrl.Socket.Handle.{Parser, request, command, command_matching, is_ok}
use wifi_ctrl.Sta.Client.{
  Request, Answer, text, status_is, networks_are, scan_is, network_id_is, finished, selected,
  SelectResult, success, wrong_psk, not_found, already_connected, Broadcast,
}
use wifi_ctrl.Sta.Events.{Event, read_event}
use wifi_ctrl.Sta.Network
use wifi_ctrl.Sta.Networks.{as_text, request_results}
use wifi_ctrl.Sta.Scan.{ScanResult, vec_from_str}
use wifi_ctrl.Sta.Status.{Status, parse_status}

-- `SelectRequest`: the channel, and how long it waits.
pub record SelectRequest : Type 0 where
  pub response : ℕ
  pub timeout_after : ℕ

-- The loop's variables. The last scan request pushed stands first.
pub record Pending : Type 0 where
  pub scan_requests : List ℕ
  pub select_request : Option SelectRequest

-- What a station's handlers need of its fields and of code outside the crate. `select_timeout` is
-- the field of that name, `order` the iteration order of `HashMap`s, and `hex` the crate.
pub record Settings : Type 0 where
  pub select_timeout : ℕ
  pub order : Table → Table
  pub hex : Hex

abbrev pub Sta : Type 0 → Type 0
Sta = M Answer Broadcast

-- `while let Some(scan_request) = scan_requests.pop()`.
unfoldable pub answer_all : List ℕ → ClientResult (List ScanResult) → Sta (Unit {0})
answer_all [] r = pure tt
answer_all (c ∷ cs) r = do answer c (scan_is r); answer_all cs r

-- `if let Some(sender) = select_request.take()`.
unfoldable pub resolve_select :
    ClientResult SelectResult → Pending → Option SelectRequest → Sta Pending
resolve_select r p none = pure p
resolve_select r p (some s) = do
  answer s.response (selected r)
  pure (record p { select_request = none })

abbrev pub usize_parser : Parser ℕ
usize_parser s = Prelude.map_err parse_int (parse_unsigned usize_max s)

-- The replies to "SCAN" that are taken as a success.
abbrev pub scan_accepted : Bytes → Bool
scan_accepted data' = bytes_eq data' (codes "OK") || bytes_eq data' (codes "FAIL-BUSY")

-- The buffer of the control socket.
abbrev pub buffer_size : ℕ
buffer_size = 10240

-- `status.id == Some(id)`.
abbrev pub is_current : ℕ → Option ℕ → Bool
is_current id none = false
is_current id (some n) = n == id

module _ (s : Settings) (peer : Peer) where
  unfoldable pub get_status : Sta (ClientResult Status)
  get_status = request buffer_size peer (codes "STATUS") (parse_status s.order)

  unfoldable pub handle_event : Event → Pending → Sta Pending
  unfolding answer_all resolve_select
  handle_event Event.scan_complete p = do
    scan_results ← request buffer_size peer (codes "SCAN_RESULTS") vec_from_str
    answer_all p.scan_requests scan_results
    pure (record p { scan_requests = [] })
  handle_event Event.scan_failed p = do
    answer_all p.scan_requests (err failed)
    pure (record p { scan_requests = [] })
  handle_event Event.connected p = do
    broadcast Broadcast.connected
    resolve_select (ok success) p p.select_request
  handle_event Event.disconnected p = do broadcast Broadcast.disconnected; pure p
  handle_event Event.network_not_found p = do
    broadcast Broadcast.network_not_found
    resolve_select (ok not_found) p p.select_request
  handle_event Event.wrong_psk p = do
    broadcast Broadcast.wrong_key
    resolve_select (ok wrong_psk) p p.select_request
  handle_event (Event.unknown msg) p = do broadcast (Broadcast.unknown msg); pure p

  -- Behind a "SELECT_NETWORK" that was taken: what the status says of the network.
  unfoldable pub await_select : ℕ → ℕ → Pending → ClientResult Status → Sta Pending
  await_select id c p (err e) = do answer c (selected (err e)); pure p
  await_select id c p (ok status) =
      if is_current id status.id
      then (do answer c (selected (ok already_connected)); pure p)
      else pure (record p {
        select_request = some (record { response = c; timeout_after = s.select_timeout });
      })

  unfoldable pub start_select : ℕ → ℕ → Pending → ClientResult (Unit {0}) → Sta Pending
  start_select id c p (err e) = do answer c (selected (err e)); pure p
  start_select id c p (ok _) = do st ← get_status; await_select id c p st

  unfoldable pub select : ℕ → ℕ → Pending → Option SelectRequest → Sta Pending
  select id c p none = do
    r ← command buffer_size peer (Network.select_network id)
    start_select id c p r
  select id c p (some _) = do answer c (selected (err pending_select)); pure p

  -- Behind a "SCAN".
  unfoldable pub await_scan : ℕ → Pending → ClientResult (Unit {0}) → Sta Pending
  await_scan c p (ok _) = pure (record p { scan_requests = c ∷ p.scan_requests })
  await_scan c p (err e) = do answer c (scan_is (err e)); pure p

  unfoldable pub handle_request : Request → Pending → Sta Pending
  unfolding select start_select await_select await_scan
  handle_request (Request.custom custom c) p = do
    data_str ← request buffer_size peer custom as_text
    answer c (text data_str)
    pure p
  handle_request (Request.scan c) p = do
    r ← command_matching buffer_size peer (codes "SCAN") scan_accepted
    await_scan c p r
  handle_request (Request.networks c) p = do
    network_list ← request_results buffer_size peer
    answer c (networks_are network_list)
    pure p
  handle_request (Request.status c) p = do st ← get_status; answer c (status_is st); pure p
  handle_request (Request.add_network c) p = do
    network_id ← request buffer_size peer (codes "ADD_NETWORK") usize_parser
    answer c (network_id_is network_id)
    pure p
  handle_request (Request.set_network id param c) p = do
    r ← command buffer_size peer (Network.set_network s.hex id param)
    answer c (finished r)
    pure p
  handle_request (Request.save_config c) p = do
    r ← command buffer_size peer (codes "SAVE_CONFIG")
    answer c (finished r)
    pure p
  handle_request (Request.reload_config c) p = do
    r ← command buffer_size peer (codes "RECONFIGURE")
    answer c (finished r)
    pure p
  handle_request (Request.remove_network which c) p = do
    r ← command buffer_size peer (Network.remove_network which)
    answer c (finished r)
    pure p
  handle_request (Request.select_network id c) p = select id c p p.select_request
  handle_request Request.shutdown p = pure p
