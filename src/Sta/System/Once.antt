-- ===== src/Sta/System/Once.antt =====
-- The clients of src/sta/client.rs and the runner: where the channel of each call is.
use wifi_ctrl.Prelude.{
  ℕ, ◌+◌, ◌≤◌, ltb, List, [], ◌∷◌, ◌++◌, some, if◌then◌else◌, Result, ok, err, count, count-append,
  ◌≡◌, refl, ap, ◌∙◌, arith,
}
use wifi_ctrl.Errors.{SocketError}
use wifi_ctrl.Socket.Channel.{Mpsc, IsMpsc}
use wifi_ctrl.Socket.Channel.Room.{send-sent}
use wifi_ctrl.Socket.World.{Peer}
use wifi_ctrl.Sta.Calls.{Call, build_request}
use wifi_ctrl.Sta.Client.{Request}
use wifi_ctrl.Sta.Loop.{request, event, select_timeout, Flow, running, stopped, step}
use wifi_ctrl.Sta.Loop.Settled.{Settled, step-Settled}
use wifi_ctrl.Sta.Station.{Settings, Pending}
use wifi_ctrl.Sta.Station.Balance.{StaWorld, answered, waiting, channel}
use wifi_ctrl.Sta.System.{
  Phase, looping, returned, dropped, System, settle, brought, held_at, queued, Step, call,
  ask_shutdown, take, hear, expire, drop, Reach, here, next, begin,
}

pub build_request-channel : (k : Call) (c : ℕ) → channel (build_request k c) ≡ c ∷ []
unfolding build_request
build_request-channel (Call.send_custom custom) c = refl
build_request-channel Call.get_scan c = refl
build_request-channel Call.get_networks c = refl
build_request-channel Call.get_status c = refl
build_request-channel Call.add_network c = refl
build_request-channel (Call.set_network_psk id psk) c = refl
build_request-channel (Call.set_network_ssid id ssid) c = refl
build_request-channel (Call.set_network_bssid id bssid) c = refl
build_request-channel (Call.set_network_keymgmt id mgmt) c = refl
build_request-channel Call.save_config c = refl
build_request-channel Call.reload_config c = refl
build_request-channel (Call.remove_network id) c = refl
build_request-channel Call.remove_all_networks c = refl
build_request-channel (Call.select_network id) c = refl

pub count-brought-append :
    (c : ℕ) (q : List Request) (r : Request)
    → count c (brought (q ++ r ∷ [])) ≡ count c (brought q) + count c (channel r)
count-brought-append c [] r = omega (arith, count-append c (channel r) [])
count-brought-append c (x ∷ q) r = omega (
  arith,
  count-append c (channel x) (brought (q ++ r ∷ [])),
  count-append c (channel x) (brought q),
  count-brought-append c q r,
)

-- How often the call of channel `c` was made.
abbrev pub made : ℕ → ℕ → ℕ
made c fresh = if ltb c fresh then 1 else 0

-- While the loop runs, every call that was made is answered, or its channel is held, and only one of
-- these and once. Behind the loop's end no call is answered or held more than once.
abbrev pub OnceAt : ℕ → Phase → ℕ → ℕ → ℕ → Type 0
OnceAt c (looping p) q a n = a + held_at c (looping p) q ≡ n
OnceAt c (returned r) q a n = a + held_at c (returned r) q ≤ n
OnceAt c dropped q a n = a + held_at c dropped q ≤ n

OnceAt-sent : (c : ℕ) (ph : Phase) (q a n d : ℕ) → OnceAt c ph q a n → OnceAt c ph (q + d) a (n + d)
OnceAt-sent c (looping p) q a n d h = omega arith
OnceAt-sent c (returned r) q a n d h = omega arith
OnceAt-sent c dropped q a n d h = omega arith

OnceAt-dropped : (c : ℕ) (ph : Phase) (q a n : ℕ) → OnceAt c ph q a n → OnceAt c dropped q a n
OnceAt-dropped c (looping p) q a n h = omega arith
OnceAt-dropped c (returned r) q a n h = omega arith
OnceAt-dropped c dropped q a n h = h

pub made-suc : (c n : ℕ) → made c (n + 1) ≡ made c n + count c (n ∷ [])
made-suc c n = ground arith

module _ {C : Type 0} (m : Mpsc Request C) where
  abbrev pub Once : ℕ → System C → Type 0
  Once c s = OnceAt c s.phase (queued m c s) (answered c s.world) (made c s.fresh)

  -- A round that took in the channels `cs`.
  settle-Once :
      (c : ℕ) (s : System C) (cs : List ℕ) (p : Pending) (x : Result SocketError Flow × StaWorld)
      → answered c s.world + waiting c p + count c cs + queued m c s ≡ made c s.fresh
      → Settled c cs s.world p x
      → Once c (settle s x)
  settle-Once c s cs p (ok (running p'), w') h b = omega arith
  settle-Once c s cs p (ok (stopped p'), w') h b = omega arith
  settle-Once c s cs p (err e, w') h b = omega arith

  looping-Once :
      (c : ℕ) (s : System C) (p : Pending)
      → s.phase ≡ looping p
      → Once c s
      → answered c s.world + (queued m c s + waiting c p) ≡ made c s.fresh
  looping-Once c s p e o = rw e at o

  module _ (laws : IsMpsc m) (set : Settings) (peer : Peer) (c : ℕ) where
    Step-Once : {s t : System C} → Step m set peer s t → Once c s → Once c t
    Step-Once {s} (call k ch' up e) o =
        let q = send-sent m laws (build_request k s.fresh) s.ch ch' e in
        let grown = count-brought-append c (m.queue s.ch) (build_request k s.fresh) in
        let one = build_request-channel k s.fresh in
        rw (q, grown, one, made-suc)
          (OnceAt-sent c s.phase (queued m c s) (answered c s.world) (made c s.fresh)
            (count c (s.fresh ∷ [])) o)
    Step-Once {s} (ask_shutdown ch' up e) o =
        let q = send-sent m laws Request.shutdown s.ch ch' e in
        let grown = count-brought-append c (m.queue s.ch) Request.shutdown in
        let same : count c (brought (m.queue ch')) ≡ queued m c s =
          ap (λ l. count c (brought l)) q ∙ omega (arith, grown) in
        rw same o
    Step-Once {s} (take p r ch' up e) o =
        let (q, _) = laws.recv_oldest r s.ch ch' e in
        let before = looping-Once c s p up o in
        let split_at : queued m c s ≡ count c (channel r) + count c (brought (m.queue ch')) =
          ap (λ l. count c (brought l)) q ∙ count-append c (channel r) (brought (m.queue ch')) in
        settle-Once c (record s { ch = ch' }) (channel r) p
          (step set peer (request (some r)) p s.world) (omega (arith, before, split_at))
          (step-Settled c set peer (request (some r)) p s.world)
    Step-Once {s} (hear p d up) o =
        let before = looping-Once c s p up o in
        settle-Once c s [] p (step set peer (event d) p s.world) (omega arith)
          (step-Settled c set peer (event d) p s.world)
    Step-Once {s} (expire p up) o =
        let before = looping-Once c s p up o in
        settle-Once c s [] p (step set peer select_timeout p s.world) (omega arith)
          (step-Settled c set peer select_timeout p s.world)
    Step-Once {s} drop o =
        OnceAt-dropped c s.phase (queued m c s) (answered c s.world) (made c s.fresh) o

    begin-Once : (ch : C) (w : StaWorld) → m.queue ch ≡ [] → answered c w ≡ 0 → Once c (begin ch w)
    begin-Once ch w e h = rw e (ground (arith, h))

    -- From a state that has it to every state that can be reached.
    pub Reach-keeps-Once : {s t : System C} → Reach m set peer s t → Once c s → Once c t
    Reach-keeps-Once here o = o
    Reach-keeps-Once (next r st) o = Step-Once st (Reach-keeps-Once r o)

    -- In every state that clients and the runner can reach, in whatever order they act and whatever the
    -- daemon does, from an empty channel and a loop that has answered nothing: while the loop runs, each
    -- call that was made is answered once, or its channel is held once, in the request channel or by the
    -- loop, and not both; and behind the loop's end, each call is answered or held once at most. No
    -- other channel is answered or held.
    pub Reach-Once :
        (ch : C) (w : StaWorld) (s : System C)
        → m.queue ch ≡ []
        → answered c w ≡ 0
        → Reach m set peer (begin ch w) s
        → Once c s
    Reach-Once ch w s e h r = Reach-keeps-Once r (begin-Once ch w e h)
