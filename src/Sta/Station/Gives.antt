-- ===== src/Sta/Station/Gives.antt =====
-- The handlers of src/sta/mod.rs, and the answers that they give through the channels that come in.
use wifi_ctrl.Prelude.{ℕ, List, [], ◌∷◌, Option, none, some, ok, err, All, inl, inr, Bool-cases}
use wifi_ctrl.Text.{Bytes, codes}
use wifi_ctrl.Errors.{ClientResult, pending_select, failed}
use wifi_ctrl.Socket.World.{Peer, ◌>>=◌, ◌>>◌, pure, answer, broadcast}
use wifi_ctrl.Socket.Handle.{request, command, command_matching, is_ok}
use wifi_ctrl.Socket.Quiet.{IsQuiet, request-IsQuiet, command_matching-IsQuiet}
use wifi_ctrl.Socket.Gives.{
  Gives, pure-Gives, answer-Gives, broadcast-Gives, quiet-Gives, >>=-Gives,
}
use wifi_ctrl.Sta.Client.{
  Request, Answer, text, status_is, networks_are, scan_is, network_id_is, finished, selected,
  SelectResult, success, wrong_psk, not_found, already_connected, Broadcast,
}
use wifi_ctrl.Sta.Events.{Event}
use wifi_ctrl.Sta.Network
use wifi_ctrl.Sta.Networks.{as_text, request_results}
use wifi_ctrl.Sta.Scan.{ScanResult, vec_from_str}
use wifi_ctrl.Sta.Status.{Status, parse_status}
use wifi_ctrl.Sta.Station.{
  Settings, SelectRequest, Pending, Sta, buffer_size, usize_parser, scan_accepted, is_current,
  answer_all, resolve_select, get_status, handle_event, await_select, start_select, select,
  await_scan, handle_request,
}
use wifi_ctrl.Sta.Station.Quiet.{request_results-IsQuiet}

-- `P c a` is what is asked of an answer `a` through the channel `c`. The channels that wait, and the
-- one that a request brings, take the answers of their kind.
module _ (P : ℕ → Answer → Type 0) where
  abbrev pub TakesScan : ℕ → Type 0
  TakesScan c = (r : ClientResult (List ScanResult)) → P c (scan_is r)

  abbrev pub TakesSelect : ℕ → Type 0
  TakesSelect c = (r : ClientResult SelectResult) → P c (selected r)

  abbrev pub SelectTakes : Option SelectRequest → Type 0
  SelectTakes none = Unit
  SelectTakes (some s) = TakesSelect s.response

  pub record PendingTakes (p : Pending) : Type 0 where
    pub scans : All TakesScan p.scan_requests
    pub chosen : SelectTakes p.select_request

  abbrev pub RequestTakes : Request → Type 0
  RequestTakes (Request.custom cmd c) = (r : ClientResult Bytes) → P c (text r)
  RequestTakes (Request.status c) = (r : ClientResult Status) → P c (status_is r)
  RequestTakes (Request.networks c) = (r : _) → P c (networks_are r)
  RequestTakes (Request.scan c) = TakesScan c
  RequestTakes (Request.add_network c) = (r : ClientResult ℕ) → P c (network_id_is r)
  RequestTakes (Request.set_network id param c) = (r : _) → P c (finished r)
  RequestTakes (Request.save_config c) = (r : _) → P c (finished r)
  RequestTakes (Request.reload_config c) = (r : _) → P c (finished r)
  RequestTakes (Request.remove_network which c) = (r : _) → P c (finished r)
  RequestTakes (Request.select_network id c) = TakesSelect c
  RequestTakes Request.shutdown = Unit

  -- An answer, and the loop's variables behind it.
  answer-pure :
      (c : ℕ) (a : Answer) (p : Pending)
      → P c a
      → PendingTakes p
      → Gives {B = Broadcast} P PendingTakes (answer c a >> pure p)
  answer-pure c a p h t =
      >>=-Gives P (λ _. Unit) PendingTakes (answer c a) (λ _. pure p) (answer-Gives P c a h)
        (λ _ _. pure-Gives P PendingTakes p t)

  quiet-first :
      {A : Type 0} (m : Sta A) (f : A → Sta Pending)
      → IsQuiet m
      → ((a : A) → Gives P PendingTakes (f a))
      → Gives P PendingTakes (m >>= f)
  quiet-first m f q h = >>=-Gives P (λ _. Unit) PendingTakes m f (quiet-Gives P m q) (λ a _. h a)

  broadcast-first :
      (b : Broadcast) (m : Sta Pending)
      → Gives P PendingTakes m
      → Gives P PendingTakes (broadcast b >> m)
  broadcast-first b m h =
      >>=-Gives P (λ _. Unit) PendingTakes (broadcast b) (λ _. m) (broadcast-Gives P b) (λ _ _. h)

  answer_all-Gives :
      (cs : List ℕ) (r : ClientResult (List ScanResult))
      → All TakesScan cs
      → Gives P (λ _. Unit) (answer_all cs r)
  unfolding answer_all
  answer_all-Gives [] r h = pure-Gives P (λ _. Unit) tt tt
  answer_all-Gives (c ∷ cs) r (h, hs) =
      >>=-Gives P (λ _. Unit) (λ _. Unit) (answer c (scan_is r)) (λ _. answer_all cs r)
        (answer-Gives P c (scan_is r) (h r)) (λ _ _. answer_all-Gives cs r hs)

  end_scans-Gives :
      (p : Pending) (r : ClientResult (List ScanResult))
      → PendingTakes p
      → Gives P PendingTakes
          (answer_all p.scan_requests r >> pure (record p { scan_requests = [] }))
  end_scans-Gives p r t =
      >>=-Gives P (λ _. Unit) PendingTakes (answer_all p.scan_requests r) _
        (answer_all-Gives p.scan_requests r t.scans)
        (λ _ _. pure-Gives P PendingTakes _ (record { scans = tt; chosen = t.chosen }))

  pub resolve_select-Gives :
      (r : ClientResult SelectResult) (p : Pending) (o : Option SelectRequest)
      → PendingTakes p
      → SelectTakes o
      → Gives P PendingTakes (resolve_select r p o)
  unfolding resolve_select
  resolve_select-Gives r p none t h = pure-Gives P PendingTakes p t
  resolve_select-Gives r p (some s) t h =
      answer-pure s.response (selected r) _ (h r) (record { scans = t.scans; chosen = tt })

  module _ (s : Settings) (peer : Peer) where
    pub handle_event-Gives :
        (e : Event) (p : Pending) → PendingTakes p → Gives P PendingTakes (handle_event s peer e p)
    unfolding handle_event
    handle_event-Gives Event.scan_complete p t =
        quiet-first (request buffer_size peer (codes "SCAN_RESULTS") vec_from_str) _
          (request-IsQuiet buffer_size peer (codes "SCAN_RESULTS") vec_from_str)
          (λ r. end_scans-Gives p r t)
    handle_event-Gives Event.scan_failed p t = end_scans-Gives p (err failed) t
    handle_event-Gives Event.connected p t =
        broadcast-first Broadcast.connected (resolve_select (ok success) p p.select_request)
          (resolve_select-Gives (ok success) p p.select_request t t.chosen)
    handle_event-Gives Event.disconnected p t =
        broadcast-first Broadcast.disconnected (pure p) (pure-Gives P PendingTakes p t)
    handle_event-Gives Event.network_not_found p t =
        broadcast-first Broadcast.network_not_found
          (resolve_select (ok not_found) p p.select_request)
          (resolve_select-Gives (ok not_found) p p.select_request t t.chosen)
    handle_event-Gives Event.wrong_psk p t =
        broadcast-first Broadcast.wrong_key (resolve_select (ok wrong_psk) p p.select_request)
          (resolve_select-Gives (ok wrong_psk) p p.select_request t t.chosen)
    handle_event-Gives (Event.unknown msg) p t =
        broadcast-first (Broadcast.unknown msg) (pure p) (pure-Gives P PendingTakes p t)

    command-IsQuiet :
        (cmd : Bytes) → IsQuiet {R = Answer} {B = Broadcast} (command buffer_size peer cmd)
    command-IsQuiet cmd = command_matching-IsQuiet buffer_size peer cmd is_ok

    get_status-IsQuiet : IsQuiet (get_status s peer)
    unfolding get_status
    get_status-IsQuiet = request-IsQuiet buffer_size peer (codes "STATUS") (parse_status s.order)

    await_select-Gives :
        (id c : ℕ) (p : Pending) (st : ClientResult Status)
        → PendingTakes p
        → TakesSelect c
        → Gives P PendingTakes (await_select s peer id c p st)
    unfolding await_select
    await_select-Gives id c p (err e) t h = answer-pure c _ p (h (err e)) t
    await_select-Gives id c p (ok st) t h = elim (Bool-cases (is_current id st.id)) [
      | inl same ↦ rw same (answer-pure c _ p (h (ok already_connected)) t)
      | inr other ↦ rw other (pure-Gives P PendingTakes _ (record { scans = t.scans; chosen = h }))
    ]

    start_select-Gives :
        (id c : ℕ) (p : Pending) (r : ClientResult (Unit {0}))
        → PendingTakes p
        → TakesSelect c
        → Gives P PendingTakes (start_select s peer id c p r)
    unfolding start_select
    start_select-Gives id c p (err e) t h = answer-pure c _ p (h (err e)) t
    start_select-Gives id c p (ok u) t h =
        quiet-first (get_status s peer) _ get_status-IsQuiet
          (λ st. await_select-Gives id c p st t h)

    select-Gives :
        (id c : ℕ) (p : Pending) (o : Option SelectRequest)
        → PendingTakes p
        → TakesSelect c
        → Gives P PendingTakes (select s peer id c p o)
    unfolding select
    select-Gives id c p (some _) t h = answer-pure c _ p (h (err pending_select)) t
    select-Gives id c p none t h =
        quiet-first (command buffer_size peer (Network.select_network id)) _
          (command-IsQuiet (Network.select_network id)) (λ r. start_select-Gives id c p r t h)

    await_scan-Gives :
        (c : ℕ) (p : Pending) (r : ClientResult (Unit {0}))
        → PendingTakes p
        → TakesScan c
        → Gives P PendingTakes (await_scan s peer c p r)
    unfolding await_scan
    await_scan-Gives c p (ok u) t h =
        pure-Gives P PendingTakes _ (record { scans = (h, t.scans); chosen = t.chosen })
    await_scan-Gives c p (err e) t h = answer-pure c _ p (h (err e)) t

    reply-Gives :
        {A : Type 0} (m : Sta A) (f : A → Answer) (c : ℕ) (p : Pending)
        → IsQuiet m
        → ((a : A) → P c (f a))
        → PendingTakes p
        → Gives P PendingTakes (m >>= λ a. answer c (f a) >> pure p)
    reply-Gives m f c p q h t = quiet-first m _ q (λ a. answer-pure c (f a) p (h a) t)

    pub handle_request-Gives :
        (r : Request) (p : Pending)
        → RequestTakes r
        → PendingTakes p
        → Gives P PendingTakes (handle_request s peer r p)
    unfolding handle_request
    handle_request-Gives (Request.custom cmd c) p h t =
        reply-Gives (request buffer_size peer cmd as_text) text c p
          (request-IsQuiet buffer_size peer cmd as_text) h t
    handle_request-Gives (Request.scan c) p h t =
        quiet-first (command_matching buffer_size peer (codes "SCAN") scan_accepted) _
          (command_matching-IsQuiet buffer_size peer (codes "SCAN") scan_accepted)
          (λ r. await_scan-Gives c p r t h)
    handle_request-Gives (Request.networks c) p h t =
        reply-Gives (request_results buffer_size peer) networks_are c p
          (request_results-IsQuiet buffer_size peer) h t
    handle_request-Gives (Request.status c) p h t =
        reply-Gives (get_status s peer) status_is c p get_status-IsQuiet h t
    handle_request-Gives (Request.add_network c) p h t =
        reply-Gives (request buffer_size peer (codes "ADD_NETWORK") usize_parser) network_id_is c p
          (request-IsQuiet buffer_size peer (codes "ADD_NETWORK") usize_parser) h t
    handle_request-Gives (Request.set_network id param c) p h t =
        reply-Gives (command buffer_size peer (Network.set_network s.hex id param)) finished c p
          (command-IsQuiet (Network.set_network s.hex id param)) h t
    handle_request-Gives (Request.save_config c) p h t =
        reply-Gives (command buffer_size peer (codes "SAVE_CONFIG")) finished c p
          (command-IsQuiet (codes "SAVE_CONFIG")) h t
    handle_request-Gives (Request.reload_config c) p h t =
        reply-Gives (command buffer_size peer (codes "RECONFIGURE")) finished c p
          (command-IsQuiet (codes "RECONFIGURE")) h t
    handle_request-Gives (Request.remove_network which c) p h t =
        reply-Gives (command buffer_size peer (Network.remove_network which)) finished c p
          (command-IsQuiet (Network.remove_network which)) h t
    handle_request-Gives (Request.select_network id c) p h t =
        select-Gives id c p p.select_request t h
    handle_request-Gives Request.shutdown p h t = pure-Gives P PendingTakes p t
