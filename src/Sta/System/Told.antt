-- ===== src/Sta/System/Told.antt =====
-- What a call of src/sta/client.rs gets, by what became of the runner.
use wifi_ctrl.Prelude.{ℕ, ◌<◌, [], Result, ◌≡◌, ◌≢◌, ◌⊎◌, inl, inr, refl, ap, arith}
use wifi_ctrl.Errors.{SocketError}
use wifi_ctrl.Socket.Channel.{Mpsc, IsMpsc}
use wifi_ctrl.Socket.Channel.Oneshot.{closed, waits, held-not-closed, unheld-not-waits}
use wifi_ctrl.Socket.World.{Peer}
use wifi_ctrl.Sta.Client.{Request}
use wifi_ctrl.Sta.Station.{Settings, Pending}
use wifi_ctrl.Sta.Station.Balance.{StaWorld, answered}
use wifi_ctrl.Sta.System.{
  Phase, looping, returned, dropped, System, held_at, queued, held, Reach, closed, waits, outcome,
  begin,
}
use wifi_ctrl.Sta.System.Once.{OnceAt, Reach-Once, made}

module _ {C : Type 0} (m : Mpsc Request C) where
  -- By the phase, what the call of channel `c` can have got: no error while the loop runs; and once the
  -- runner is dropped, it does not wait.
  abbrev pub Told : ℕ → System C → Type 0
  Told c s =
      ((p : Pending) × (s.phase ≡ looping p) × (outcome m c s ≢ closed))
      ⊎ ((r : Result SocketError (Unit {0})) × (s.phase ≡ returned r))
      ⊎ ((s.phase ≡ dropped) × (outcome m c s ≢ waits))

  pub Once-Told :
      (c : ℕ) (s : System C) (ph : Phase)
      → s.phase ≡ ph
      → c < s.fresh
      → OnceAt c ph (queued m c s) (answered c s.world) (made c s.fresh)
      → Told c s
  Once-Told c s (looping p) e l o =
      let kept : held m c s ≡ held_at c (looping p) (queued m c s) =
        ap (λ x. held_at c x (queued m c s)) e in
      let once : made c s.fresh ≡ 1 = ground arith in
      inl (p, e, held-not-closed c s.world.answers (held m c s) (omega (arith, kept, once, o)))
  Once-Told c s (returned r) e l o = inr (inl (r, e))
  Once-Told c s dropped e l o = inr (
      inr (
        e,
        unheld-not-waits c s.world.answers (held m c s) (ap (λ x. held_at c x (queued m c s)) e),
      ))

  module _ (laws : IsMpsc m) (set : Settings) (peer : Peer) where
    -- In every state that clients and the runner can reach from an empty channel, for a call that was
    -- made: while the loop runs, the call waits or has its answer, and never gets `RunnerNotRunning`.
    -- Once the runner is dropped, the call does not wait: it has its answer, or gets the error.
    pub Reach-Told :
        (ch : C) (w : StaWorld) (s : System C) (c : ℕ)
        → m.queue ch ≡ []
        → answered c w ≡ 0
        → Reach m set peer (begin ch w) s
        → c < s.fresh
        → Told c s
    Reach-Told ch w s c e h r l =
        Once-Told c s s.phase refl l (Reach-Once m laws set peer c ch w s e h r)
