-- ===== src/Sta/Life/Hangs.antt =====
-- `run` of src/sta/mod.rs as it sends the requests that were put off back to the request channel.
use wifi_ctrl.Prelude.{◌≤◌, List, ◌∷◌, some, length, ◌≡◌, ◌⊎◌, inl, inr, refl}
use wifi_ctrl.Text.{Bytes}
use wifi_ctrl.Socket.Channel.{Mpsc, IsMpsc}
use wifi_ctrl.Socket.World.{Peer}
use wifi_ctrl.Sta.Calls.{build_request}
use wifi_ctrl.Sta.Client.{Request}
use wifi_ctrl.Sta.Life.{
  Stage, resends, Life, LifeStep, call, ask_shutdown, run_opens, run_fails, waits, puts_off,
  binds_events, fails_events, waits_events, puts_off_events, attached, fails_attach, resent, enters,
  takes, hears, expires, cancels, cancels_request, cancels_event, drops, run_cancelled,
  station_dropped, LifeReach, here, next,
}
use wifi_ctrl.Sta.Station.{Settings}

-- `run` has a request to send back.
abbrev Blocked : Stage → Type 0
Blocked (resends (r ∷ rs)) = Unit {0}
Blocked _ = ⊥

module _ {C : Type 0} (m : Mpsc Request C) (set : Settings) (peer : Peer) (path : Bytes) where
  -- From there, every step sends a request, or is the owner's.
  LifeStep-Blocked :
      {s t : Life C}
      → LifeStep m set peer path s t
      → Blocked s.stage
      → ((x : Request) × (ch' : C) × (m.send x s.ch ≡ some ch'))
        ⊎ (t ≡ run_cancelled s)
        ⊎ (t ≡ station_dropped s)
  LifeStep-Blocked {s} (call k ch' up e) b = inl (build_request k s.fresh, ch', e)
  LifeStep-Blocked (ask_shutdown ch' up e) b = inl (Request.shutdown, ch', e)
  LifeStep-Blocked (resent r rs ch' e sends) b = inl (r, ch', sends)
  LifeStep-Blocked (cancels up) b = inr (inl refl)
  LifeStep-Blocked drops b = inr (inr refl)
  LifeStep-Blocked (run_opens x e) b = elim (rw e at b) [ ]
  LifeStep-Blocked (run_fails x y e) b = elim (rw e at b) [ ]
  LifeStep-Blocked (waits n ds h e out) b = elim (rw e at b) [ ]
  LifeStep-Blocked (puts_off n ds x ch' e recvs) b = elim (rw e at b) [ ]
  LifeStep-Blocked (binds_events ds e) b = elim (rw e at b) [ ]
  LifeStep-Blocked (fails_events ds x e) b = elim (rw e at b) [ ]
  LifeStep-Blocked (waits_events n ds es h e out) b = elim (rw e at b) [ ]
  LifeStep-Blocked (puts_off_events n ds es x ch' e recvs) b = elim (rw e at b) [ ]
  LifeStep-Blocked (attached ds es e) b = elim (rw e at b) [ ]
  LifeStep-Blocked (fails_attach ds es x e) b = elim (rw e at b) [ ]
  LifeStep-Blocked (enters e) b = elim (rw e at b) [ ]
  LifeStep-Blocked (takes p x ch' e recvs) b = elim (rw e at b) [ ]
  LifeStep-Blocked (hears p d e) b = elim (rw e at b) [ ]
  LifeStep-Blocked (expires p e) b = elim (rw e at b) [ ]
  LifeStep-Blocked (cancels_request p r ch' w e recvs same) b = elim (rw e at b) [ ]
  LifeStep-Blocked (cancels_event p w e same) b = elim (rw e at b) [ ]

  -- With channels as documented, when `run` is to send a request that was put off back to the request
  -- channel, and the channel is full, also because clients have filled it since: in every state that can
  -- be reached from there, whatever clients and the daemon do, nothing has changed, unless the owner has
  -- cancelled this very run, which drops the requests that were put off, or has dropped the station.
  pub resends-hangs :
      (s t : Life C) (r : Request) (rs : List Request)
      → IsMpsc m
      → s.stage ≡ resends (r ∷ rs)
      → m.capacity s.ch ≤ length (m.queue s.ch)
      → LifeReach m set peer path s t
      → (t ≡ s)
        ⊎ LifeReach m set peer path (run_cancelled s) t
        ⊎ LifeReach m set peer path (station_dropped s) t
  resends-hangs s t r rs laws e full run = go run
    where
      go :
          {u : Life C}
          → LifeReach m set peer path s u
          → (u ≡ s)
            ⊎ LifeReach m set peer path (run_cancelled s) u
            ⊎ LifeReach m set peer path (station_dropped s) u
      go here = inl refl
      go {u} (next {t = v} before st) = elim (go before) [
        | inl same ↦ elim (LifeStep-Blocked st (rw (same, e) tt)) [
          | inl (x, ch', sends) ↦
              let none_sent = laws.send_full x s.ch full in
              let sends' = rw same at sends in absurd cc
          | inr (inl is) ↦ inr (inl (rw (is, same) here))
          | inr (inr is) ↦ inr (inr (rw (is, same) here))
        ]
        | inr (inl behind) ↦ inr (inl (next behind st))
        | inr (inr behind) ↦ inr (inr (next behind st))
      ]
