-- ===== src/Examples/Sta/Ends.antt =====
-- `app` of examples/wifi-sta.rs, with the loop of src/sta/mod.rs next to it in `join!`: how they end.
use wifi_ctrl.Prelude.{[], some, Result, ok, ◌≡◌, ◌⊎◌}
use wifi_ctrl.Errors.{SocketError}
use wifi_ctrl.Socket.Channel.{Mpsc, IsMpsc, Receives}
use wifi_ctrl.Socket.World.{Peer}
use wifi_ctrl.Sta.Client.{Request}
use wifi_ctrl.Sta.Script.{done, Program, Moves, Launching, script_of, requests_of, launch}
use wifi_ctrl.Sta.Script.Ends.{ShutsDownLast, sent_by, Runner, Moves-Runner}
use wifi_ctrl.Sta.Script.Finishes.{done-ends}
use wifi_ctrl.Sta.Station.{Settings}
use wifi_ctrl.Sta.Station.Balance.{StaWorld}
use wifi_ctrl.Sta.System.{returned}
use wifi_ctrl.Examples.Sta.{app}

app-ShutsDownLast : ShutsDownLast app
unfolding app
app-ShutsDownLast scan networks = tt

module _ {C : Type 0} (m : Mpsc Request C) (laws : IsMpsc m) (set : Settings) (peer : Peer) where
  -- With channels as documented, in every state that the example and the runner reach from the start of
  -- the loop, whatever the daemon does: unless the example has sent its shutdown, also when the error
  -- of a scan or of a list of networks has ended `app`, the loop runs with no shutdown in its channel,
  -- or a socket error has ended it.
  pub app-Runner :
      (l : Launching) (ch : C) (w : StaWorld) (s : Program C)
      → script_of l ≡ app
      → m.queue ch ≡ requests_of l
      → Moves m set peer (launch l ch w) s
      → Runner m (sent_by s.app) s.ended s.system
  app-Runner l ch w s is e r = Moves-Runner m laws set peer l ch w s (rw is app-ShutsDownLast) e r

  -- With channels as documented, in every state that the example and the runner reach from the start of
  -- the loop, which has answered nothing: when `app` has ended with `Ok`, `run` has returned, or the
  -- runner can go on, with nothing more from the daemon and nothing sent to it, until `run` has
  -- returned `Ok` and its future is done.
  pub app-ends :
      (l : Launching) (ch : C) (w : StaWorld) (s : Program C)
      → Receives m
      → script_of l ≡ app
      → m.queue ch ≡ requests_of l
      → w.answers ≡ []
      → Moves m set peer (launch l ch w) s
      → s.app ≡ done (ok tt)
      → ((t : Program C) × Moves m set peer s t
          × (t.ended ≡ some (ok tt))
          × (t.system.world ≡ s.system.world))
        ⊎ ((x : Result SocketError (Unit {0})) × (s.system.phase ≡ returned x))
        ⊎ ((x : Result SocketError (Unit {0})) × (s.ended ≡ some x))
  app-ends l ch w s some_held is e none_answered r d =
      done-ends m set peer laws some_held l ch w s (rw is app-ShutsDownLast) e none_answered r d
