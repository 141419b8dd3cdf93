-- ===== src/Sta/Station/Balance.antt =====
-- Which channels are answered, and which still wait.
use wifi_ctrl.Prelude.{
  ℕ, ◌+◌, ◌≤◌, List, [], ◌∷◌, Option, none, some, ◌==◌, if◌then◌else◌, Result, ok, err, ◌≡◌, refl,
  arith, ap, count, map, inl, inr, Bool-cases,
}
use wifi_ctrl.Text.{Bytes, codes}
use wifi_ctrl.Errors.{SocketError, ClientResult, failed}
use wifi_ctrl.Socket.World.{Peer, World, ◌>>=◌, ◌>>◌, then_with, pure, answer}
use wifi_ctrl.Socket.Handle.{request, command, command_matching, is_ok}
use wifi_ctrl.Sta.Client.{
  Request, Answer, scan_is, text, status_is, networks_are, network_id_is, finished, SelectResult,
  Broadcast,
}
use wifi_ctrl.Sta.Events.{Event}
use wifi_ctrl.Sta.Network
use wifi_ctrl.Sta.Networks.{as_text, request_results}
use wifi_ctrl.Sta.Scan.{ScanResult, vec_from_str}
use wifi_ctrl.Sta.Status.{Status, parse_status}
use wifi_ctrl.Sta.Station.{
  Settings, Pending, SelectRequest, Sta, buffer_size, usize_parser, scan_accepted, is_current,
  answer_all, resolve_select, get_status, handle_event, await_select, start_select, select,
  await_scan, handle_request,
}
use wifi_ctrl.Socket.Quiet.{SameLogs, IsQuiet, request-IsQuiet, command_matching-IsQuiet}
use wifi_ctrl.Sta.Station.Quiet.{request_results-IsQuiet}

abbrev pub StaWorld : Type 0
StaWorld = World Answer Broadcast

-- How often channel `c` has been answered.
abbrev pub answered : ℕ → StaWorld → ℕ
answered c w = count c (map (λ a. a.0) w.answers)

abbrev pub selecting : ℕ → Option SelectRequest → ℕ
selecting c none = 0
selecting c (some s) = if s.response == c then 1 else 0

-- How often it stands among the requests that wait.
abbrev pub waiting : ℕ → Pending → ℕ
waiting c p = count c p.scan_requests + selecting c p.select_request

-- Behind an operation that took in the channels `cs`: each is answered, or waits. If the runner ends
-- with an error, channels may be dropped, and none is answered twice.
abbrev pub Balanced :
    ℕ → List ℕ → StaWorld → Pending → Result SocketError Pending × StaWorld → Type 0
Balanced c cs w p (ok p', w') =
    answered c w' + waiting c p' ≡ answered c w + waiting c p + count c cs
Balanced c cs w p (err e, w') = answered c w' ≤ answered c w + waiting c p + count c cs

-- The channel that a request brings.
abbrev pub channel : Request → List ℕ
channel (Request.custom cmd d) = d ∷ []
channel (Request.status d) = d ∷ []
channel (Request.networks d) = d ∷ []
channel (Request.scan d) = d ∷ []
channel (Request.add_network d) = d ∷ []
channel (Request.set_network id param d) = d ∷ []
channel (Request.save_config d) = d ∷ []
channel (Request.reload_config d) = d ∷ []
channel (Request.remove_network which d) = d ∷ []
channel (Request.select_network id d) = d ∷ []
channel Request.shutdown = []

module _ (c : ℕ) where
  -- A quiet step first changes nothing of the balance.
  quiet-Balanced :
      {A : Type 0} (m : Sta A) (f : A → Sta Pending) (cs : List ℕ) (w : StaWorld) (p : Pending)
      → IsQuiet m
      → ((a : A) (w' : StaWorld) → Balanced c cs w' p (f a w'))
      → Balanced c cs w p ((m >>= f) w)
  quiet-Balanced {A} m f cs w p q h = go (m w) (q w)
    where
      moved :
          (w' : StaWorld)
          → SameLogs w w'
          → (x : Result SocketError Pending × StaWorld) → Balanced c cs w' p x
          → Balanced c cs w p x
      moved w' s (ok p', w'') b = rw (← s.answers_is) b
      moved w' s (err e, w'') b = rw (← s.answers_is) b

      go :
          (x : Result SocketError A × StaWorld) → SameLogs w x.1 → Balanced c cs w p (then_with x f)
      go (ok a, w') s = moved w' s (f a w') (h a w')
      go (err e, w') s = ground (arith, s)

  -- One answer at the end of a request.
  answer-Balanced :
      (d : ℕ) (r : Answer) (w : StaWorld) (p : Pending)
      → Balanced c (d ∷ []) w p ((answer d r >> pure p) w)
  answer-Balanced d r w p = omega arith

  answer_all-answered :
      (cs : List ℕ) (r : ClientResult (List ScanResult)) (w : StaWorld)
      → (w' : StaWorld) × (answer_all cs r w ≡ (ok tt, w'))
        × (answered c w' ≡ answered c w + count c cs)
  unfolding answer_all
  answer_all-answered [] r w = (w, refl, omega arith)
  answer_all-answered (d ∷ cs) r w =
      let (w', e, n) =
        answer_all-answered cs r (record w { answers = (d, scan_is r) ∷ w.answers }) in
      (w', e, omega (arith, n))

  answer_all-Balanced :
      (r : ClientResult (List ScanResult)) (p : Pending) (w : StaWorld)
      → Balanced c [] w p
          ((answer_all p.scan_requests r >> pure (record p { scan_requests = [] })) w)
  answer_all-Balanced r p w =
      let (w', e, n) = answer_all-answered p.scan_requests r w in rw e (omega (arith, n))

  pub resolve_select-Balanced :
      (r : ClientResult SelectResult) (p : Pending) (o : Option SelectRequest) (w : StaWorld)
      → p.select_request ≡ o
      → Balanced c [] w p (resolve_select r p o w)
  unfolding resolve_select
  resolve_select-Balanced r p none w e = ground arith
  resolve_select-Balanced r p (some s) w e = ground arith

module _ (c : ℕ) (s : Settings) (peer : Peer) where
  -- An event answers waiting channels only, and each of those once.
  pub handle_event-Balanced :
      (e : Event) (p : Pending) (w : StaWorld) → Balanced c [] w p (handle_event s peer e p w)
  unfolding handle_event
  handle_event-Balanced Event.scan_complete p w =
      quiet-Balanced c (request buffer_size peer (codes "SCAN_RESULTS") vec_from_str) _ [] w p
        (request-IsQuiet buffer_size peer (codes "SCAN_RESULTS") vec_from_str)
        (λ r w'. answer_all-Balanced c r p w')
  handle_event-Balanced Event.scan_failed p w = answer_all-Balanced c (err failed) p w
  handle_event-Balanced Event.connected p w = resolve_select-Balanced c _ p p.select_request _ refl
  handle_event-Balanced Event.disconnected p w = omega arith
  handle_event-Balanced Event.network_not_found p w =
      resolve_select-Balanced c _ p p.select_request _ refl
  handle_event-Balanced Event.wrong_psk p w = resolve_select-Balanced c _ p p.select_request _ refl
  handle_event-Balanced (Event.unknown msg) p w = omega arith

  command-IsQuiet :
      (cmd : Bytes) → IsQuiet {R = Answer} {B = Broadcast} (command buffer_size peer cmd)
  command-IsQuiet cmd = command_matching-IsQuiet buffer_size peer cmd is_ok

  get_status-IsQuiet : IsQuiet (get_status s peer)
  unfolding get_status
  get_status-IsQuiet = request-IsQuiet buffer_size peer (codes "STATUS") (parse_status s.order)

  await_select-Balanced :
      (id d : ℕ) (p : Pending) (st : ClientResult Status) (w : StaWorld)
      → p.select_request ≡ none
      → Balanced c (d ∷ []) w p (await_select s peer id d p st w)
  unfolding await_select
  await_select-Balanced id d p (err e) w h = omega arith
  await_select-Balanced id d p (ok st) w h =
      let free : selecting c p.select_request ≡ 0 = ap (selecting c) h in
      elim (Bool-cases (is_current id st.id)) [
        | inl same ↦ rw same (omega arith)
        | inr other ↦ rw other (omega (arith, free))
      ]

  start_select-Balanced :
      (id d : ℕ) (p : Pending) (r : ClientResult (Unit {0})) (w : StaWorld)
      → p.select_request ≡ none
      → Balanced c (d ∷ []) w p (start_select s peer id d p r w)
  unfolding start_select
  start_select-Balanced id d p (err e) w h = omega arith
  start_select-Balanced id d p (ok u) w h =
      quiet-Balanced c (get_status s peer) _ (d ∷ []) w p get_status-IsQuiet
        (λ st w'. await_select-Balanced id d p st w' h)

  select-Balanced :
      (id d : ℕ) (p : Pending) (o : Option SelectRequest) (w : StaWorld)
      → p.select_request ≡ o
      → Balanced c (d ∷ []) w p (select s peer id d p o w)
  unfolding select
  select-Balanced id d p (some _) w h = omega arith
  select-Balanced id d p none w h =
      quiet-Balanced c (command buffer_size peer (Network.select_network id)) _ (d ∷ []) w p
        (command-IsQuiet (Network.select_network id)) (λ r w'. start_select-Balanced id d p r w' h)

  await_scan-Balanced :
      (d : ℕ) (p : Pending) (r : ClientResult (Unit {0})) (w : StaWorld)
      → Balanced c (d ∷ []) w p (await_scan s peer d p r w)
  unfolding await_scan
  await_scan-Balanced d p (ok u) w = omega arith
  await_scan-Balanced d p (err e) w = omega arith

  reply-Balanced :
      {A : Type 0} (m : Sta A) (f : A → Answer) (d : ℕ) (p : Pending) (w : StaWorld)
      → IsQuiet m
      → Balanced c (d ∷ []) w p ((m >>= λ a. answer d (f a) >> pure p) w)
  reply-Balanced m f d p w q =
      quiet-Balanced c m _ (d ∷ []) w p q (λ a w'. answer-Balanced c d (f a) w' p)

  -- A request's channel is answered once or waits, and no other channel is touched.
  pub handle_request-Balanced :
      (r : Request) (p : Pending) (w : StaWorld)
      → Balanced c (channel r) w p (handle_request s peer r p w)
  unfolding handle_request
  handle_request-Balanced (Request.custom cmd d) p w =
      reply-Balanced (request buffer_size peer cmd as_text) text d p w
        (request-IsQuiet buffer_size peer cmd as_text)
  handle_request-Balanced (Request.scan d) p w =
      quiet-Balanced c (command_matching buffer_size peer (codes "SCAN") scan_accepted) _ (d ∷ []) w
        p (command_matching-IsQuiet buffer_size peer (codes "SCAN") scan_accepted)
        (λ r w'. await_scan-Balanced d p r w')
  handle_request-Balanced (Request.networks d) p w =
      reply-Balanced (request_results buffer_size peer) networks_are d p w
        (request_results-IsQuiet buffer_size peer)
  handle_request-Balanced (Request.status d) p w =
      reply-Balanced (get_status s peer) status_is d p w get_status-IsQuiet
  handle_request-Balanced (Request.add_network d) p w =
      reply-Balanced (request buffer_size peer (codes "ADD_NETWORK") usize_parser) network_id_is d p
        w (request-IsQuiet buffer_size peer (codes "ADD_NETWORK") usize_parser)
  handle_request-Balanced (Request.set_network id param d) p w =
      reply-Balanced (command buffer_size peer (Network.set_network s.hex id param)) finished d p w
        (command-IsQuiet (Network.set_network s.hex id param))
  handle_request-Balanced (Request.save_config d) p w =
      reply-Balanced (command buffer_size peer (codes "SAVE_CONFIG")) finished d p w
        (command-IsQuiet (codes "SAVE_CONFIG"))
  handle_request-Balanced (Request.reload_config d) p w =
      reply-Balanced (command buffer_size peer (codes "RECONFIGURE")) finished d p w
        (command-IsQuiet (codes "RECONFIGURE"))
  handle_request-Balanced (Request.remove_network which d) p w =
      reply-Balanced (command buffer_size peer (Network.remove_network which)) finished d p w
        (command-IsQuiet (Network.remove_network which))
  handle_request-Balanced (Request.select_network id d) p w =
      select-Balanced id d p p.select_request w refl
  handle_request-Balanced Request.shutdown p w = omega arith
