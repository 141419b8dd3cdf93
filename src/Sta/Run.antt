-- ===== src/Sta/Run.antt =====
-- `run` of src/sta/mod.rs behind its start: "ready" is broadcast, and the loop begins, with the requests
-- that were put off in the request channel.
use wifi_ctrl.Prelude.{
  ℕ, ◌≤◌, ◌<◌, List, [], ◌∷◌, ◌++◌, Option, none, some, count, length, ◌≡◌, inl, inr, refl, ap, ◌∙◌,
  arith,
}
use wifi_ctrl.Text.{Bytes}
use wifi_ctrl.Socket.Channel.{Mpsc, IsMpsc, Start, started, start_failed, start_waits, start_hangs}
use wifi_ctrl.Socket.World.{Peer, broadcast}
use wifi_ctrl.Sta.Client.{Request, Broadcast}
use wifi_ctrl.Sta.Loop.{no_pending}
use wifi_ctrl.Sta.Start.{Startup, start}
use wifi_ctrl.Sta.Start.Requeue.{Opens, start-resend}
use wifi_ctrl.Sta.Station.{Settings}
use wifi_ctrl.Sta.Station.Balance.{StaWorld, answered}
use wifi_ctrl.Sta.System.{System, looping, brought, Reach}
use wifi_ctrl.Sta.System.Once.{Once, made, Reach-keeps-Once}
use wifi_ctrl.Sta.System.Told.{Told, Once-Told}

-- The clients and the runner when the loop begins, if it does; `fresh` calls were made so far.
unfoldable pub enter : {C : Type 0} → Start C → StaWorld → ℕ → Option (System C)
enter (started ch) w fresh = some (record {
  ch = ch;
  phase = looping no_pending;
  world = (broadcast Broadcast.ready w).1;
  fresh = fresh;
})
enter (start_failed e) w fresh = none
enter start_waits w fresh = none
enter start_hangs w fresh = none

module _ {C : Type 0} (m : Mpsc Request C) (set : Settings) (peer : Peer) where
  -- With channels as documented, when both sockets have opened, with `ds` and then `es` put off, and the
  -- channel is empty and has room for these: the loop begins, and "ready" has been broadcast. If the calls
  -- so far are the requests that were put off, each once, and nothing was answered before, then in every
  -- state that is reached from there, each call, one that was put off or a later one, is answered or held
  -- once while the loop runs, and at most once behind its end. While the loop runs no call gets
  -- `RunnerNotRunning`, and once the runner is dropped none waits.
  pub run-Once :
      (path : Bytes) (u : Startup) (ch : C) (ds es : List Request) (w : StaWorld) (fresh : ℕ)
      → IsMpsc m
      → Opens u ds es
      → m.queue ch ≡ []
      → length (ds ++ es) ≤ m.capacity ch
      → ((c : ℕ) → count c (brought (ds ++ es)) ≡ made c fresh)
      → ((c : ℕ) → answered c w ≡ 0)
      → (s : System C) × (enter (start m path u ch) w fresh ≡ some s)
        × (s.world.broadcasts ≡ Broadcast.ready ∷ w.broadcasts)
        × ((t : System C) (c : ℕ) → Reach m set peer s t → Once m c t × (c < t.fresh → Told m c t))
  unfolding enter
  run-Once path u ch ds es w fresh laws o empty room calls unanswered =
      let none_held : length (m.queue ch) ≡ 0 = ap length empty in
      elim (start-resend m path u ch ds es laws o (omega (arith, none_held))) [
        | inl (l, ch', e, q) ↦
            let held_now : m.queue ch' ≡ ds ++ es = q ∙ ap (λ l. l ++ (ds ++ es)) empty in
            (
              record {
                ch = ch';
                phase = looping no_pending;
                world = record w { broadcasts = Broadcast.ready ∷ w.broadcasts };
                fresh = fresh;
              },
              ap (λ x. enter x w fresh) e,
              refl,
              λ t c r.
                  let once = Reach-keeps-Once m laws set peer c r (
                    omega (arith, ap (λ l. count c (brought l)) held_now, calls c, unanswered c)) in
                  (once, λ l. Once-Told m c t t.phase refl l once),
            )
        | inr (l, e) ↦ absurd (omega (arith, none_held))
      ]
