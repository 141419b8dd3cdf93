-- ===== src/Ap/System/Told.antt =====
-- What a call of src/ap/client.rs gets, by what became of the runner.
use wifi_ctrl.Prelude.{
  count-onto, ℕ, zero, suc, ◌≤◌, ◌<◌, [], Result, count, ◌≡◌, ◌≢◌, ◌⊎◌, inl, inr, refl, ap, arith,
}
use wifi_ctrl.Errors.{SocketError}
use wifi_ctrl.Config.Table.{Table}
use wifi_ctrl.Socket.Channel.{Mpsc, IsMpsc}
use wifi_ctrl.Socket.Channel.Oneshot.{closed, waits, held-not-closed, unheld-not-waits}
use wifi_ctrl.Socket.World.{Peer}
use wifi_ctrl.Ap.Client.{Request}
use wifi_ctrl.Ap.Served.{ApWorld, answered}
use wifi_ctrl.Ap.System.{
  ApPhase, looping, returned, dropped, ApSystem, ApReach, begin_ap, brought, ap_held_at, ap_outcome,
}
use wifi_ctrl.Ap.System.InOrder.{made, OrderAt, ApReach-InOrder}

count-made : (c n : ℕ) → c < n → 1 ≤ count c (made n)
count-made c zero l = absurd (omega arith)
count-made c (suc n) l = ground (arith, count-made c n)

module _ {C : Type 0} (m : Mpsc Request C) where
  -- By the phase, what the call of channel `c` can have got: no error while the loop runs; and once the
  -- runner is dropped, it does not wait.
  abbrev pub ApTold : ℕ → ApSystem C → Type 0
  ApTold c s =
      ((s.phase ≡ looping) × (ap_outcome m c s ≢ closed))
      ⊎ ((r : Result SocketError (Unit {0})) × (s.phase ≡ returned r))
      ⊎ ((s.phase ≡ dropped) × (ap_outcome m c s ≢ waits))

  InOrder-ApTold :
      (c : ℕ) (s : ApSystem C) (ph : ApPhase)
      → s.phase ≡ ph
      → c < s.fresh
      → OrderAt ph (brought (m.queue s.ch)) (answered s.world) s.fresh
      → ApTold c s
  InOrder-ApTold c s looping e l o =
      let kept : ap_held_at m c s.phase s.ch ≡ count c (brought (m.queue s.ch)) =
        ap (λ ph. ap_held_at m c ph s.ch) e in
      let once = count-made c s.fresh l in
      let both = count-onto c (brought (m.queue s.ch)) (answered s.world) in
      inl (
        e,
        held-not-closed c s.world.answers (ap_held_at m c s.phase s.ch)
            (omega (arith, kept, once, both, ap (count c) o)),
      )
  InOrder-ApTold c s (returned r) e l o = inr (inl (r, e))
  InOrder-ApTold c s dropped e l o = inr (
      inr (
        e,
        unheld-not-waits c s.world.answers (ap_held_at m c s.phase s.ch)
            (ap (λ ph. ap_held_at m c ph s.ch) e),
      ))

  -- In every state that clients and the runner can reach from an empty channel, for a call that was made:
  -- while the loop runs, the call waits or has its answer, and never gets `RunnerNotRunning`. Once the
  -- runner is dropped, the call does not wait: it has its answer, or gets the error.
  pub ApReach-ApTold :
      (laws : IsMpsc m) (order : Table → Table) (peer : Peer) (ch : C) (w : ApWorld)
      (s : ApSystem C) (c : ℕ)
      → m.queue ch ≡ []
      → answered w ≡ []
      → ApReach m order peer (begin_ap ch w) s
      → c < s.fresh
      → ApTold c s
  ApReach-ApTold laws order peer ch w s c e h r l =
      InOrder-ApTold c s s.phase refl l (ApReach-InOrder m laws order peer ch w s e h r)
