-- ===== src/Ap/Served.antt =====
-- `run_internal` of src/ap/mod.rs: which requests are answered, and in what order.
use wifi_ctrl.Prelude.{ℕ, List, [], ◌∷◌, ◌++◌, none, some, Result, ok, err, ◌≡◌, refl, ap, map}
use wifi_ctrl.Text.{Bytes, codes}
use wifi_ctrl.Errors.{SocketError}
use wifi_ctrl.Config.Table.{Table}
use wifi_ctrl.Socket.World.{Peer, World, ◌>>=◌, then_with, answer, pure}
use wifi_ctrl.Socket.Handle.{request, command, is_ok}
use wifi_ctrl.Socket.Logged.{Logged, Logged-all, then_with-Logged, then_with-pure}
use wifi_ctrl.Socket.Quiet.{SameLogs, IsQuiet, request-IsQuiet, command_matching-IsQuiet}
use wifi_ctrl.Ap.Events.{Event, read_event}
use wifi_ctrl.Ap.Client.{Request, Answer, text, status_is, config_is, finished, Broadcast}
use wifi_ctrl.Ap.Runner.{
  Ap, buffer_size, as_text, status_parser, config_parser, handle_event, set_command, Wake,
  event_wake, request_wake, Flow, running, stopped, handle_request, step, run_internal,
}

abbrev pub ApWorld : Type 0
ApWorld = World Answer Broadcast

-- The channels answered, the last first.
abbrev pub answered : ApWorld → List ℕ
answered w = map (λ a. a.0) w.answers

-- The channel that a request brings.
abbrev pub channel : Request → List ℕ
channel (Request.custom cmd d) = d ∷ []
channel (Request.status d) = d ∷ []
channel (Request.config d) = d ∷ []
channel (Request.enable d) = d ∷ []
channel (Request.disable d) = d ∷ []
channel (Request.set_value key value d) = d ∷ []
channel Request.shutdown = []

-- The channels of the requests up to a shutdown.
abbrev pub channels : List Wake → List ℕ
channels [] = []
channels (event_wake e ∷ wakes) = channels wakes
channels (request_wake none ∷ wakes) = channels wakes
channels (request_wake (some Request.shutdown) ∷ wakes) = []
channels (request_wake (some r) ∷ wakes) = channel r ++ channels wakes

-- Behind an operation that took in the channels `cs`, each is answered once and in their order. A socket
-- error stops this behind some of them.
abbrev pub Served : {A : Type 0} → List ℕ → List ℕ → Result SocketError A × ApWorld → Type 0
Served cs log x = Logged answered cs log x

reply-Served :
    {A : Type 0} (m : Ap A) (f : A → Answer) (d : ℕ) (w : ApWorld)
    → IsQuiet m
    → Served (d ∷ []) (answered w) ((m >>= λ a. answer d (f a)) w)
reply-Served {A} m f d w q = go (m w) (q w)
  where
    go :
        (x : Result SocketError A × ApWorld)
        → SameLogs w x.1
        → Served (d ∷ []) (answered w) (then_with x (λ a. answer d (f a)))
    go (ok a, w') s = ap (λ l. d ∷ map (λ a. a.0) l) s.answers_is
    go (err e, w') s = ([], d ∷ [], refl, ap (λ l. map (λ a. a.0) l) s.answers_is)

handle_event-answered : (e : Event) (w : ApWorld) → answered (handle_event e w).1 ≡ answered w
unfolding handle_event
handle_event-answered (Event.ap_sta_connected mac) w = refl
handle_event-answered (Event.ap_sta_disconnected mac) w = refl
handle_event-answered (Event.unknown msg) w = refl

module _ (order : Table → Table) (peer : Peer) where
  command-IsQuiet :
      (cmd : Bytes) → IsQuiet {R = Answer} {B = Broadcast} (command buffer_size peer cmd)
  command-IsQuiet cmd = command_matching-IsQuiet buffer_size peer cmd is_ok

  handle_request-Served :
      (r : Request) (w : ApWorld) → Served (channel r) (answered w) (handle_request order peer r w)
  unfolding handle_request
  handle_request-Served (Request.custom cmd d) w =
      reply-Served (request buffer_size peer cmd as_text) text d w
        (request-IsQuiet buffer_size peer cmd as_text)
  handle_request-Served (Request.status d) w =
      reply-Served (request buffer_size peer (codes "STATUS") (status_parser order)) status_is d w
        (request-IsQuiet buffer_size peer (codes "STATUS") (status_parser order))
  handle_request-Served (Request.config d) w =
      reply-Served (request buffer_size peer (codes "GET_CONFIG") (config_parser order)) config_is d
        w (request-IsQuiet buffer_size peer (codes "GET_CONFIG") (config_parser order))
  handle_request-Served (Request.enable d) w =
      reply-Served (command buffer_size peer (codes "ENABLE")) finished d w
        (command-IsQuiet (codes "ENABLE"))
  handle_request-Served (Request.disable d) w =
      reply-Served (command buffer_size peer (codes "DISABLE")) finished d w
        (command-IsQuiet (codes "DISABLE"))
  handle_request-Served (Request.set_value key value d) w =
      reply-Served (command buffer_size peer (set_command key value)) finished d w
        (command-IsQuiet (set_command key value))
  handle_request-Served Request.shutdown w = refl

  go_on-Served :
      (r : Request) (d : ℕ) (w : ApWorld)
      → Served (d ∷ []) (answered w) (handle_request order peer r w)
      → Served (d ∷ []) (answered w) (then_with (handle_request order peer r w) (λ _. pure running))
  go_on-Served r d w s =
      then_with-Logged answered (d ∷ []) [] (answered w) (handle_request order peer r w) _ s
        (λ _ _. refl)

  -- The channels that a wake brings.
  abbrev pub taken : Wake → List ℕ
  taken (event_wake d) = []
  taken (request_wake none) = []
  taken (request_wake (some r)) = channel r

  pub step-Served :
      (wake : Wake) (w : ApWorld) → Served (taken wake) (answered w) (step order peer wake w)
  unfolding step
  step-Served (event_wake (err e)) w = ([], [], refl, refl)
  step-Served (event_wake (ok d)) w =
      then_with-Logged answered [] [] (answered w) (handle_event (read_event d) w) _
        (Logged-all answered [] (answered w) (handle_event (read_event d) w)
          (handle_event-answered (read_event d) w))
        (λ _ _. refl)
  step-Served (request_wake none) w = ([], [], refl, refl)
  step-Served (request_wake (some (Request.custom cmd d))) w =
      go_on-Served (Request.custom cmd d) d w (handle_request-Served (Request.custom cmd d) w)
  step-Served (request_wake (some (Request.status d))) w =
      go_on-Served (Request.status d) d w (handle_request-Served (Request.status d) w)
  step-Served (request_wake (some (Request.config d))) w =
      go_on-Served (Request.config d) d w (handle_request-Served (Request.config d) w)
  step-Served (request_wake (some (Request.enable d))) w =
      go_on-Served (Request.enable d) d w (handle_request-Served (Request.enable d) w)
  step-Served (request_wake (some (Request.disable d))) w =
      go_on-Served (Request.disable d) d w (handle_request-Served (Request.disable d) w)
  step-Served (request_wake (some (Request.set_value key value d))) w =
      go_on-Served (Request.set_value key value d) d w
        (handle_request-Served (Request.set_value key value d) w)
  step-Served (request_wake (some Request.shutdown)) w = refl

  abbrev next_round : List Wake → Flow → Ap Flow
  next_round wakes flow = elim flow [
    | running ↦ run_internal order peer wakes
    | stopped ↦ pure stopped
  ]

  -- A round that serves `cs`, and those behind it.
  round-Served :
      (m : Ap (Unit {0})) (cs : List ℕ) (wakes : List Wake) (w : ApWorld)
      → Served cs (answered w) (m w)
      → ((w' : ApWorld) → Served (channels wakes) (answered w') (run_internal order peer wakes w'))
      → Served
          (cs ++ channels wakes)
          (answered w)
          (then_with (then_with (m w) (λ _. pure running)) (next_round wakes))
  round-Served m cs wakes w s ih =
      rw (then_with-pure (m w) (λ _. running) (next_round wakes))
        (then_with-Logged answered cs (channels wakes) (answered w) (m w) _ s (λ _. ih))

  -- Whatever the daemon does and however the loop is woken: every request that comes in before a
  -- shutdown is answered exactly once, and the answers are given in the order in which the requests came
  -- in. If a socket error ends the loop, this holds of the requests up to some point.
  pub run_internal-Served :
      (wakes : List Wake) (w : ApWorld)
      → Served (channels wakes) (answered w) (run_internal order peer wakes w)
  unfolding run_internal step
  run_internal-Served [] w = refl
  run_internal-Served (event_wake (err e) ∷ wakes) w = ([], channels wakes, refl, refl)
  run_internal-Served (event_wake (ok d) ∷ wakes) w =
      round-Served (handle_event (read_event d)) [] wakes w
        (Logged-all answered [] (answered w) (handle_event (read_event d) w)
          (handle_event-answered (read_event d) w))
        (run_internal-Served wakes)
  run_internal-Served (request_wake none ∷ wakes) w = ([], channels wakes, refl, refl)
  run_internal-Served (request_wake (some Request.shutdown) ∷ wakes) w = refl
  run_internal-Served (request_wake (some r) ∷ wakes) w =
      round-Served (handle_request order peer r) (channel r) wakes w (handle_request-Served r w)
        (run_internal-Served wakes)
