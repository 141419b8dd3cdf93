-- ===== src/Sta/Script/Finishes.antt =====
-- A program that has shut the runner of src/sta/mod.rs down: the runner's next request is its last.
use wifi_ctrl.Prelude.{
  ℕ, ◌≤◌, ltb, List, [], ◌∷◌, some, Result, ok, count, count-append, ◌≡◌, ◌⊎◌, inl, inr, refl, sym,
  ap, ◌∙◌, arith, Bool-cases, Option-cases,
}
use wifi_ctrl.Errors.{SocketError}
use wifi_ctrl.Socket.Channel.{Mpsc, IsMpsc, Receives}
use wifi_ctrl.Socket.World.{Peer}
use wifi_ctrl.Sta.Client.{Request}
use wifi_ctrl.Sta.Loop.{request, step}
use wifi_ctrl.Sta.Loop.Stops.{take_shutdown-eq}
use wifi_ctrl.Sta.Script.{
  done, Program, serves, leaves, Moves, none_yet, further, Launching, no_call, put_off, script_of,
  requests_of, launch,
}
use wifi_ctrl.Sta.Script.Ends.{ShutsDownLast, Moves-Runner}
use wifi_ctrl.Sta.Script.Shutdowns.{shutdowns}
use wifi_ctrl.Sta.Station.{Settings, Pending}
use wifi_ctrl.Sta.Station.Balance.{StaWorld, channel}
use wifi_ctrl.Sta.System.{
  Phase, looping, returned, dropped, System, settle, take, Reach, here, brought,
}
use wifi_ctrl.Sta.System.Once.{Once, Reach-keeps-Once, build_request-channel}
use wifi_ctrl.Sta.Script.Heard.{Heard, Move-Heard, Move-Reach}

request-cases : (r : Request) → (r ≡ Request.shutdown) ⊎ ((c : ℕ) × (channel r ≡ c ∷ []))
request-cases (Request.custom cmd c) = inr (c, refl)
request-cases (Request.status c) = inr (c, refl)
request-cases (Request.networks c) = inr (c, refl)
request-cases (Request.scan c) = inr (c, refl)
request-cases (Request.add_network c) = inr (c, refl)
request-cases (Request.set_network id v c) = inr (c, refl)
request-cases (Request.save_config c) = inr (c, refl)
request-cases (Request.reload_config c) = inr (c, refl)
request-cases (Request.remove_network which c) = inr (c, refl)
request-cases (Request.select_network id c) = inr (c, refl)
request-cases Request.shutdown = inl refl

-- Requests whose channels are none of those that could be held.
only_shutdowns :
    (r : Request) (q : List Request)
    → ((c : ℕ) → count c (brought (r ∷ q)) ≡ 0)
    → r ≡ Request.shutdown
only_shutdowns r q h = elim (request-cases r) [
  | inl e ↦ e
  | inr (c, e) ↦
      let split_at = count-append c (channel r) (brought q) in
      let own : count c (channel r) ≡ 1 = ap (count c) e ∙ ground arith in
      absurd (omega (arith, split_at, own, h c))
]

Phase-cases :
    (ph : Phase)
    → ((p : Pending) × (ph ≡ looping p))
      ⊎ ((x : Result SocketError (Unit {0})) × (ph ≡ returned x))
      ⊎ (ph ≡ dropped)
Phase-cases (looping p) = inl (p, refl)
Phase-cases (returned x) = inr (inl (x, refl))
Phase-cases dropped = inr (inr refl)

module _ {C : Type 0} (m : Mpsc Request C) (set : Settings) (peer : Peer) where
  Moves-Heard :
      {s t : Program C}
      → Moves m set peer s t
      → Heard s.app s.system.fresh s.system.world
      → Heard t.app t.system.fresh t.system.world
  Moves-Heard none_yet h = h
  Moves-Heard (further r mv) h = Move-Heard m set peer mv (Moves-Heard r h)

  Moves-Reach : {s t : Program C} → Moves m set peer s t → Reach m set peer s.system t.system
  Moves-Reach none_yet = here
  Moves-Reach (further r mv) = Move-Reach m set peer mv (Moves-Reach r)

  launch-Heard :
      (l : Launching) (ch : C) (w : StaWorld)
      → Heard (launch l ch w).app (launch l ch w).system.fresh w
  launch-Heard (no_call script) ch w = λ c l. absurd (omega arith)
  launch-Heard (put_off k f) ch w = (omega arith, λ c l. absurd (omega arith))

  launch-Once :
      (l : Launching) (ch : C) (w : StaWorld) (c : ℕ)
      → m.queue ch ≡ requests_of l
      → w.answers ≡ []
      → Once m c (launch l ch w).system
  launch-Once (no_call script) ch w c e none_answered = rw (e, none_answered) (ground arith)
  launch-Once (put_off k f) ch w c e none_answered =
      rw (e, none_answered, build_request-channel k 0) (ground arith)

  -- Behind a program that has ended well, the request channel of a loop that runs has no call.
  done-none :
      (l : Launching) (ch : C) (w : StaWorld) (s : Program C) (p : Pending)
      → IsMpsc m
      → m.queue ch ≡ requests_of l
      → w.answers ≡ []
      → Moves m set peer (launch l ch w) s
      → s.app ≡ done (ok tt)
      → s.system.phase ≡ looping p
      → (c : ℕ) → count c (brought (m.queue s.system.ch)) ≡ 0
  done-none l ch w s p laws e none_answered r d up c =
      let kept =
        Reach-keeps-Once m laws set peer c (Moves-Reach r) (launch-Once l ch w c e none_answered) in
      let once = rw up at kept in
      let heard = rw d at (Moves-Heard r (launch-Heard l ch w)) in
      elim (Bool-cases (ltb c s.system.fresh)) [
        | inl earlier ↦ let h = heard c (ground arith) in ground (arith, once, h)
        | inr later ↦ ground (arith, once)
      ]

  module _ (laws : IsMpsc m) (some_held : Receives m) where
    last_request :
        (q : List Request) (s : Program C) (p : Pending)
        → m.queue s.system.ch ≡ q
        → ((c : ℕ) → count c (brought q) ≡ 0)
        → 1 ≤ shutdowns q
        → s.system.phase ≡ looping p
        → (t : Program C) × Moves m set peer s t
          × (t.ended ≡ some (ok tt))
          × (t.system.world ≡ s.system.world)
    last_request [] s p e none_held h up = absurd (omega arith)
    last_request (r ∷ q) s p e none_held h up =
        let ((r', ch'), recvs) = some_held.recv_some r q s.system.ch e in
        let (oldest, _) = laws.recv_oldest r' s.system.ch ch' recvs in
        let same : r' ≡ r = let both = sym oldest ∙ e in cc in
        let stop = same ∙ only_shutdowns r q none_held in
        let t : System C =
          settle (record s.system { ch = ch' })
            (step set peer (request (some r')) p s.system.world) in
        let stops : t ≡ record s.system { ch = ch'; phase = returned (ok tt) } =
          rw (stop, take_shutdown-eq set peer p s.system.world) refl in
        (
          record s { system = record t { phase = dropped }; ended = some (ok tt) },
          further (further none_yet (serves t (take p r' ch' up recvs) tt))
              (leaves (ok tt) (ap (λ x. x.phase) stops)),
          refl,
          ap (λ x. x.world) stops,
        )

    -- For a program that makes calls, and shuts the runner down as its last act, in every state that it
    -- and the runner reach from the start of the loop, which has answered nothing: when the program
    -- has ended with `Ok`, `run` has returned, or the runner can go on, with nothing more from the
    -- daemon and nothing sent to it, until `run` has returned `Ok` and its owner is done.
    pub done-ends :
        (l : Launching) (ch : C) (w : StaWorld) (s : Program C)
        → ShutsDownLast (script_of l)
        → m.queue ch ≡ requests_of l
        → w.answers ≡ []
        → Moves m set peer (launch l ch w) s
        → s.app ≡ done (ok tt)
        → ((t : Program C) × Moves m set peer s t
            × (t.ended ≡ some (ok tt))
            × (t.system.world ≡ s.system.world))
          ⊎ ((x : Result SocketError (Unit {0})) × (s.system.phase ≡ returned x))
          ⊎ ((x : Result SocketError (Unit {0})) × (s.ended ≡ some x))
    done-ends l ch w s last e none_answered r d =
        let stands = rw d at (Moves-Runner m laws set peer l ch w s last e r) in
        elim (Phase-cases s.system.phase) [
          | inl (p, up) ↦ inl (
              last_request _ s p refl (done-none l ch w s p laws e none_answered r d up)
                (rw up at stands) up)
          | inr (inl ret) ↦ inr (inl ret)
          | inr (inr gone) ↦ elim (Option-cases s.ended) [
            | inl no_end ↦ elim (rw (gone, no_end) at stands) [ ]
            | inr some_end ↦ inr (inr some_end)
          ]
        ]
