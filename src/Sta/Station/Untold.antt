-- ===== src/Sta/Station/Untold.antt =====
-- The handlers of src/sta/mod.rs and the broadcasts.
use wifi_ctrl.Prelude.{
  onto, ℕ, List, [], ◌∷◌, Option, none, some, ok, err, ◌≡◌, refl, Bool-cases, inl, inr,
}
use wifi_ctrl.Text.{Bytes, codes}
use wifi_ctrl.Errors.{ClientResult, failed}
use wifi_ctrl.Socket.Handle.{request, command, command_matching, is_ok}
use wifi_ctrl.Socket.Quiet.{IsQuiet, request-IsQuiet, command_matching-IsQuiet}
use wifi_ctrl.Socket.Untold.{IsUntold, >>=-IsUntold, quiet_then-IsUntold, reply_and-IsUntold}
use wifi_ctrl.Socket.World.{Peer, ◌>>=◌, ◌>>◌, pure, answer}
use wifi_ctrl.Sta.Client.{
  Request, Broadcast, SelectResult, success, not_found, wrong_psk, text, status_is, networks_are,
  network_id_is, finished, scan_is,
}
use wifi_ctrl.Sta.Events.{Event}
use wifi_ctrl.Sta.Network
use wifi_ctrl.Sta.Networks.{as_text, request_results}
use wifi_ctrl.Sta.Scan.{ScanResult, vec_from_str}
use wifi_ctrl.Sta.Station.{
  Settings, Pending, SelectRequest, buffer_size, usize_parser, scan_accepted, is_current,
  answer_all, resolve_select, get_status, handle_event, await_select, start_select, select,
  await_scan, handle_request,
}
use wifi_ctrl.Sta.Station.Balance.{StaWorld}
use wifi_ctrl.Sta.Station.Quiet.{request_results-IsQuiet}
use wifi_ctrl.Sta.Status.{Status, parse_status}

-- What is broadcast of an event.
abbrev pub told : Event → List Broadcast
told Event.scan_complete = []
told Event.scan_failed = []
told Event.connected = Broadcast.connected ∷ []
told Event.disconnected = Broadcast.disconnected ∷ []
told Event.network_not_found = Broadcast.network_not_found ∷ []
told Event.wrong_psk = Broadcast.wrong_key ∷ []
told (Event.unknown msg) = Broadcast.unknown msg ∷ []

pub resolve_select-IsUntold :
    (r : ClientResult SelectResult) (p : Pending) (o : Option SelectRequest)
    → IsUntold (resolve_select r p o)
unfolding resolve_select
resolve_select-IsUntold r p none = λ w. refl
resolve_select-IsUntold r p (some q) = λ w. refl

answer_all-IsUntold :
    (cs : List ℕ) (r : ClientResult (List ScanResult)) → IsUntold (answer_all cs r)
unfolding answer_all
answer_all-IsUntold [] r w = refl
answer_all-IsUntold (c ∷ cs) r w =
    answer_all-IsUntold cs r (record w { answers = (c, scan_is r) ∷ w.answers })

module _ (s : Settings) (peer : Peer) where
  pub handle_event-told :
      (e : Event) (p : Pending) (w : StaWorld)
      → (handle_event s peer e p w).1.broadcasts ≡ onto (told e) w.broadcasts
  unfolding handle_event
  handle_event-told Event.scan_complete p w =
      quiet_then-IsUntold (request buffer_size peer (codes "SCAN_RESULTS") vec_from_str) _
        (request-IsQuiet buffer_size peer (codes "SCAN_RESULTS") vec_from_str)
        (λ r.
          >>=-IsUntold (answer_all p.scan_requests r) _ (answer_all-IsUntold p.scan_requests r)
            (λ _ w. refl))
        w
  handle_event-told Event.scan_failed p w =
      >>=-IsUntold (answer_all p.scan_requests (err failed)) _
        (answer_all-IsUntold p.scan_requests (err failed)) (λ _ w. refl) w
  handle_event-told Event.connected p w = resolve_select-IsUntold (ok success) p p.select_request _
  handle_event-told Event.disconnected p w = refl
  handle_event-told Event.network_not_found p w =
      resolve_select-IsUntold (ok not_found) p p.select_request _
  handle_event-told Event.wrong_psk p w =
      resolve_select-IsUntold (ok wrong_psk) p p.select_request _
  handle_event-told (Event.unknown msg) p w = refl

  command-IsUntold :
      (cmd : Bytes) (c : ℕ) (p : Pending)
      → IsUntold {B = Broadcast}
          (do r ← command buffer_size peer cmd; answer c (finished r); pure p)
  command-IsUntold cmd c p =
      reply_and-IsUntold (command buffer_size peer cmd) finished c p
        (command_matching-IsQuiet buffer_size peer cmd is_ok)

  get_status-IsQuiet : IsQuiet (get_status s peer)
  unfolding get_status
  get_status-IsQuiet = request-IsQuiet buffer_size peer (codes "STATUS") (parse_status s.order)

  await_select-IsUntold :
      (id c : ℕ) (p : Pending) (r : ClientResult Status) → IsUntold (await_select s peer id c p r)
  unfolding await_select
  await_select-IsUntold id c p (err e) w = refl
  await_select-IsUntold id c p (ok status) w = elim (Bool-cases (is_current id status.id)) [
    | inl e ↦ rw (e, await_select) refl
    | inr e ↦ rw (e, await_select) refl
  ]

  start_select-IsUntold :
      (id c : ℕ) (p : Pending) (r : ClientResult (Unit {0}))
      → IsUntold (start_select s peer id c p r)
  unfolding start_select
  start_select-IsUntold id c p (err e) = λ w. refl
  start_select-IsUntold id c p (ok _) =
      quiet_then-IsUntold (get_status s peer) _ get_status-IsQuiet (await_select-IsUntold id c p)

  select-IsUntold :
      (id c : ℕ) (p : Pending) (o : Option SelectRequest) → IsUntold (select s peer id c p o)
  unfolding select
  select-IsUntold id c p none =
      quiet_then-IsUntold (command buffer_size peer (Network.select_network id)) _
        (command_matching-IsQuiet buffer_size peer (Network.select_network id) is_ok)
        (start_select-IsUntold id c p)
  select-IsUntold id c p (some _) = λ w. refl

  await_scan-IsUntold :
      (c : ℕ) (p : Pending) (r : ClientResult (Unit {0})) → IsUntold (await_scan s peer c p r)
  unfolding await_scan
  await_scan-IsUntold c p (ok _) = λ w. refl
  await_scan-IsUntold c p (err e) = λ w. refl

  pub handle_request-IsUntold : (r : Request) (p : Pending) → IsUntold (handle_request s peer r p)
  unfolding handle_request
  handle_request-IsUntold (Request.custom cmd c) p =
      reply_and-IsUntold (request buffer_size peer cmd as_text) text c p
        (request-IsQuiet buffer_size peer cmd as_text)
  handle_request-IsUntold (Request.scan c) p =
      quiet_then-IsUntold (command_matching buffer_size peer (codes "SCAN") scan_accepted) _
        (command_matching-IsQuiet buffer_size peer (codes "SCAN") scan_accepted)
        (await_scan-IsUntold c p)
  handle_request-IsUntold (Request.networks c) p =
      reply_and-IsUntold (request_results buffer_size peer) networks_are c p
        (request_results-IsQuiet buffer_size peer)
  handle_request-IsUntold (Request.status c) p =
      reply_and-IsUntold (get_status s peer) status_is c p get_status-IsQuiet
  handle_request-IsUntold (Request.add_network c) p =
      reply_and-IsUntold (request buffer_size peer (codes "ADD_NETWORK") usize_parser) network_id_is
        c p (request-IsQuiet buffer_size peer (codes "ADD_NETWORK") usize_parser)
  handle_request-IsUntold (Request.set_network id param c) p =
      command-IsUntold (Network.set_network s.hex id param) c p
  handle_request-IsUntold (Request.save_config c) p = command-IsUntold (codes "SAVE_CONFIG") c p
  handle_request-IsUntold (Request.reload_config c) p = command-IsUntold (codes "RECONFIGURE") c p
  handle_request-IsUntold (Request.remove_network which c) p =
      command-IsUntold (Network.remove_network which) c p
  handle_request-IsUntold (Request.select_network id c) p = select-IsUntold id c p p.select_request
  handle_request-IsUntold Request.shutdown p = λ w. refl
