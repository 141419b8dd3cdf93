-- ===== src/Sta/Station/Select.antt =====
-- The life of a select request and of the scan requests: who starts them, and what ends them.
use wifi_ctrl.Prelude.{
  ℕ, List, [], ◌∷◌, ◌++◌, Option, none, some, Result, ok, err, ◌≡◌, refl, ap, sym,
}
use wifi_ctrl.Text.{codes}
use wifi_ctrl.Errors.{SocketError, ClientResult, failed, pending_select}
use wifi_ctrl.Socket.World.{Peer, ◌>>=◌, ◌>>◌, then_with, pure, answer}
use wifi_ctrl.Socket.Handle.{request, command, command_matching}
use wifi_ctrl.Sta.Client.{
  Request, Answer, selected, scan_is, SelectResult, success, wrong_psk, not_found, text, status_is,
  networks_are, network_id_is, finished,
}
use wifi_ctrl.Sta.Events.{Event}
use wifi_ctrl.Sta.Network
use wifi_ctrl.Sta.Networks.{as_text, request_results}
use wifi_ctrl.Sta.Scan.{ScanResult, vec_from_str}
use wifi_ctrl.Sta.Station.{
  Settings, Pending, SelectRequest, Sta, buffer_size, usize_parser, scan_accepted, answer_all,
  resolve_select, get_status, handle_event, select, await_scan, handle_request,
}
use wifi_ctrl.Sta.Station.Balance.{StaWorld}

-- What an event says to a pending select.
abbrev pub verdict : Event → Option (ClientResult SelectResult)
verdict Event.connected = some (ok success)
verdict Event.network_not_found = some (ok not_found)
verdict Event.wrong_psk = some (ok wrong_psk)
verdict _ = none

abbrev pub verdict_answers : ClientResult SelectResult → Option SelectRequest → List (ℕ × Answer)
verdict_answers r none = []
verdict_answers r (some s) = (s.response, selected r) ∷ []

-- A property of the state behind an operation, if that ends well.
abbrev pub After : (Pending → Type 0) → Result SocketError Pending × StaWorld → Type 0
After P (ok p, w) = P p
After P (err e, w) = Unit {0}

-- With a verdict, no select is pending any more, the one that was got the verdict as its answer, and
-- nothing else is answered. Without one, the pending select stays.
abbrev pub SelectAfter :
    Option (ClientResult SelectResult)
    → Pending
    → StaWorld
    → Result SocketError Pending × StaWorld
    → Type 0
SelectAfter (some r) p w (ok p', w') =
    (p'.select_request ≡ none)
    × (p'.scan_requests ≡ p.scan_requests)
    × (w'.answers ≡ verdict_answers r p.select_request ++ w.answers)
SelectAfter (some r) p w (err e, w') = ⊥
SelectAfter none p w x = After (λ p'. p'.select_request ≡ p.select_request) x

resolve_select-SelectAfter :
    (r : ClientResult SelectResult) (p : Pending) (o : Option SelectRequest) (w : StaWorld)
    → p.select_request ≡ o
    → SelectAfter (some r) p w (resolve_select r p o w)
unfolding resolve_select
resolve_select-SelectAfter r p none w e =
    (e, refl, ap (λ o. verdict_answers r o ++ w.answers) (sym e))
resolve_select-SelectAfter r p (some s) w e =
    (refl, refl, ap (λ o. verdict_answers r o ++ w.answers) (sym e))

then_with-After :
    {A : Type 0} (P : Pending → Type 0) (x : Result SocketError A × StaWorld) (f : A → Sta Pending)
    → ((a : A) (w : StaWorld) → After P (f a w))
    → After P (then_with x f)
then_with-After P (ok a, w) f h = h a w
then_with-After P (err e, w) f h = tt

answer_all-After :
    (P : Pending → Type 0) (cs : List ℕ) (r : ClientResult (List ScanResult)) (p : Pending)
    (w : StaWorld)
    → P p
    → After P ((answer_all cs r >> pure p) w)
answer_all-After P cs r p w h = then_with-After P (answer_all cs r w) (λ _. pure p) (λ _ _. h)

module _ (s : Settings) (peer : Peer) where
  -- The end of a select: of the events, exactly "connected", "network not found" and "wrong key"
  -- end the pending select, with the result that they stand for, and no other event touches it.
  pub handle_event-SelectAfter :
      (e : Event) (p : Pending) (w : StaWorld)
      → SelectAfter (verdict e) p w (handle_event s peer e p w)
  unfolding handle_event
  handle_event-SelectAfter Event.scan_complete p w =
      then_with-After (λ p'. p'.select_request ≡ p.select_request)
        (request buffer_size peer (codes "SCAN_RESULTS") vec_from_str w) _
        (λ r w'. answer_all-After _ p.scan_requests r (record p { scan_requests = [] }) w' refl)
  handle_event-SelectAfter Event.scan_failed p w =
      answer_all-After (λ p'. p'.select_request ≡ p.select_request) p.scan_requests (err failed)
        (record p { scan_requests = [] }) w refl
  handle_event-SelectAfter Event.connected p w =
      resolve_select-SelectAfter (ok success) p p.select_request _ refl
  handle_event-SelectAfter Event.disconnected p w = refl
  handle_event-SelectAfter Event.network_not_found p w =
      resolve_select-SelectAfter (ok not_found) p p.select_request _ refl
  handle_event-SelectAfter Event.wrong_psk p w =
      resolve_select-SelectAfter (ok wrong_psk) p p.select_request _ refl
  handle_event-SelectAfter (Event.unknown msg) p w = refl

-- The log behind the same answer to each of these channels.
abbrev pub scan_answers :
    ClientResult (List ScanResult) → List ℕ → List (ℕ × Answer) → List (ℕ × Answer)
scan_answers r [] log = log
scan_answers r (c ∷ cs) log = scan_answers r cs ((c, scan_is r) ∷ log)

pub answer_all-scan_answers :
    (cs : List ℕ) (r : ClientResult (List ScanResult)) (w : StaWorld)
    → answer_all cs r w ≡ (ok tt, record w { answers = scan_answers r cs w.answers })
unfolding answer_all
answer_all-scan_answers [] r w = refl
answer_all-scan_answers (c ∷ cs) r w =
    answer_all-scan_answers cs r (record w { answers = (c, scan_is r) ∷ w.answers })

module _ (s : Settings) (peer : Peer) where
  -- If the request of "SCAN_RESULTS" returns a result, then behind "scan results" all scan requests
  -- that wait get that result, and none waits. Behind "scan failed" all get `Failed` with nothing
  -- sent, and none waits.
  pub handle_event-scan_answers :
      (p : Pending) (w w' : StaWorld) (r : ClientResult (List ScanResult))
      → request buffer_size peer (codes "SCAN_RESULTS") vec_from_str w ≡ (ok r, w')
      → (handle_event s peer Event.scan_complete p w ≡ (
        ok (record p { scan_requests = [] }),
        record w' { answers = scan_answers r p.scan_requests w'.answers },
      ))
        × (handle_event s peer Event.scan_failed p w ≡ (
          ok (record p { scan_requests = [] }),
          record w { answers = scan_answers (err failed) p.scan_requests w.answers },
        ))
  unfolding handle_event
  handle_event-scan_answers p w w' r e =
      (simp (e, answer_all-scan_answers), simp answer_all-scan_answers)

  reply-After :
      {A : Type 0} (P : Pending → Type 0) (m : Sta A) (f : A → Answer) (d : ℕ) (p : Pending)
      (w : StaWorld)
      → P p
      → After P ((m >>= λ a. answer d (f a) >> pure p) w)
  reply-After P m f d p w h = then_with-After P (m w) _ (λ a w'. h)

  select-After :
      (id d : ℕ) (p : Pending) (o : Option SelectRequest) (q : SelectRequest) (w : StaWorld)
      → o ≡ some q
      → p.select_request ≡ some q
      → After (λ p'. p'.select_request ≡ some q) (select s peer id d p o w)
  unfolding select
  select-After id d p none q w e h = cc
  select-After id d p (some _) q w e h = h

  await_scan-After :
      (P : Option SelectRequest → Type 0) (d : ℕ) (p : Pending) (r : ClientResult (Unit {0}))
      (w : StaWorld)
      → P p.select_request
      → After (λ p'. P p'.select_request) (await_scan s peer d p r w)
  unfolding await_scan
  await_scan-After P d p (ok u) w h = h
  await_scan-After P d p (err e) w h = h

  -- No request replaces or drops a select that is pending.
  handle_request-After :
      (r : Request) (p : Pending) (q : SelectRequest) (w : StaWorld)
      → p.select_request ≡ some q
      → After (λ p'. p'.select_request ≡ some q) (handle_request s peer r p w)
  unfolding handle_request
  handle_request-After (Request.custom cmd d) p q w h =
      reply-After _ (request buffer_size peer cmd as_text) text d p w h
  handle_request-After (Request.scan d) p q w h =
      then_with-After _ (command_matching buffer_size peer (codes "SCAN") scan_accepted w) _
        (λ r w'. await_scan-After (λ o. o ≡ some q) d p r w' h)
  handle_request-After (Request.networks d) p q w h =
      reply-After _ (request_results buffer_size peer) networks_are d p w h
  handle_request-After (Request.status d) p q w h =
      reply-After _ (get_status s peer) status_is d p w h
  handle_request-After (Request.add_network d) p q w h =
      reply-After _ (request buffer_size peer (codes "ADD_NETWORK") usize_parser) network_id_is d p
        w h
  handle_request-After (Request.set_network id param d) p q w h =
      reply-After _ (command buffer_size peer (Network.set_network s.hex id param)) finished d p w h
  handle_request-After (Request.save_config d) p q w h =
      reply-After _ (command buffer_size peer (codes "SAVE_CONFIG")) finished d p w h
  handle_request-After (Request.reload_config d) p q w h =
      reply-After _ (command buffer_size peer (codes "RECONFIGURE")) finished d p w h
  handle_request-After (Request.remove_network which d) p q w h =
      reply-After _ (command buffer_size peer (Network.remove_network which)) finished d p w h
  handle_request-After (Request.select_network id d) p q w h =
      select-After id d p p.select_request q w h h
  handle_request-After Request.shutdown p q w h = h

  select-pending_select :
      (id d : ℕ) (p : Pending) (o : Option SelectRequest) (q : SelectRequest) (w : StaWorld)
      → o ≡ some q
      → select s peer id d p o w
        ≡ (ok p, record w { answers = (d, selected (err pending_select)) ∷ w.answers })
  unfolding select
  select-pending_select id d p none q w e = cc
  select-pending_select id d p (some _) q w e = refl

  -- While a select is pending, no request that is handled without a socket error replaces or drops
  -- it, and another select request is answered with `PendingSelect` at once, with nothing sent to
  -- the supplicant.
  pub handle_request-pending_select :
      (r : Request) (id d : ℕ) (p : Pending) (q : SelectRequest) (w : StaWorld)
      → p.select_request ≡ some q
      → After (λ p'. p'.select_request ≡ some q) (handle_request s peer r p w)
        × (handle_request s peer (Request.select_network id d) p w
            ≡ (ok p, record w { answers = (d, selected (err pending_select)) ∷ w.answers }))
  unfolding handle_request
  handle_request-pending_select r id d p q w h =
      (handle_request-After r p q w h, select-pending_select id d p p.select_request q w h)
