-- ===== src/Examples/QuickStart.antt =====
-- The program of the documentation in src/lib.rs, next to the runner that it spawns.
use wifi_ctrl.Prelude.{[], some, Result, ok, ◌≡◌, ◌⊎◌}
use wifi_ctrl.Errors.{SocketError}
use wifi_ctrl.Socket.Channel.{Mpsc, IsMpsc, Receives}
use wifi_ctrl.Socket.World.{Peer}
use wifi_ctrl.Sta.Calls.{Call}
use wifi_ctrl.Sta.Client.{Request}
use wifi_ctrl.Sta.Script.{
  Script, finish, ask, shut_down, done, Program, Moves, Launching, script_of, requests_of, launch,
}
use wifi_ctrl.Sta.Script.Ends.{ShutsDownLast, sent_by, Runner, Moves-Runner}
use wifi_ctrl.Sta.Script.Finishes.{done-ends}
use wifi_ctrl.Sta.Station.{Settings}
use wifi_ctrl.Sta.Station.Balance.{StaWorld}
use wifi_ctrl.Sta.System.{returned}

-- What it prints of the scan is left out.
unfoldable quick_start : Script
quick_start = ask Call.get_scan (λ scan. shut_down finish)

quick_start-ShutsDownLast : ShutsDownLast quick_start
unfolding quick_start
quick_start-ShutsDownLast scan = tt

module _ {C : Type 0} (m : Mpsc Request C) (laws : IsMpsc m) (set : Settings) (peer : Peer) where
  -- The runner next to it, by whether the shutdown was sent.
  quick_start-Runner :
      (l : Launching) (ch : C) (w : StaWorld) (s : Program C)
      → script_of l ≡ quick_start
      → m.queue ch ≡ requests_of l
      → Moves m set peer (launch l ch w) s
      → Runner m (sent_by s.app) s.ended s.system
  quick_start-Runner l ch w s is e r =
      Moves-Runner m laws set peer l ch w s (rw is quick_start-ShutsDownLast) e r

  -- Its shutdown is the runner's next request.
  quick_start-ends :
      (l : Launching) (ch : C) (w : StaWorld) (s : Program C)
      → Receives m
      → script_of l ≡ quick_start
      → m.queue ch ≡ requests_of l
      → w.answers ≡ []
      → Moves m set peer (launch l ch w) s
      → s.app ≡ done (ok tt)
      → ((t : Program C) × Moves m set peer s t
          × (t.ended ≡ some (ok tt))
          × (t.system.world ≡ s.system.world))
        ⊎ ((x : Result SocketError (Unit {0})) × (s.system.phase ≡ returned x))
        ⊎ ((x : Result SocketError (Unit {0})) × (s.ended ≡ some x))
  quick_start-ends l ch w s some_held is e none_answered r d =
      done-ends m set peer laws some_held l ch w s (rw is quick_start-ShutsDownLast) e none_answered
        r d
