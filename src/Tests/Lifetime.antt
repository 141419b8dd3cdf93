-- ===== src/Tests/Lifetime.antt =====
-- A station with room for one request: a scan is put off, and a status fills its place.
use wifi_ctrl.Prelude.{[], ◌∷◌, Option, none, Result, ◌≡◌, ◌⊎◌, refl, arith}
use wifi_ctrl.Errors.{SocketError}
use wifi_ctrl.Socket.Channel.Oneshot.{Outcome}
use wifi_ctrl.Text.{codes}
use wifi_ctrl.Socket.Open.{connects, wait_open}
use wifi_ctrl.Sta.Calls.{Call, build_request}
use wifi_ctrl.Sta.Client.{Request, is_shutdown}
use wifi_ctrl.Sta.Life.{
  idle, resends, Life, call, run_opens, waits, puts_off, binds_events, waits_events, attached,
  cancels, run_cancelled, station_dropped, LifeReach, here, next, newborn,
}
use wifi_ctrl.Sta.Life.Hangs.{resends-hangs}
use wifi_ctrl.Sta.Life.Once.{LifeOnce, LifeReach-Once}
use wifi_ctrl.Sta.Life.Waits.{Again, life_outcome, idle-waits}
use wifi_ctrl.Tests.Bounded.{Held, bounded, bounded-IsMpsc}
use wifi_ctrl.Tests.Runner.{ok_peer, settings, fresh_world}

abbrev filled : Life (Held Request)
filled = record {
  ch = (1, Request.status 1 ∷ []);
  stage = resends (Request.scan 0 ∷ []);
  world = fresh_world;
  fresh = 2;
  ended = 0;
}

filled_reached :
    LifeReach
      (bounded Request)
      settings
      ok_peer
      (codes "wlan0")
      (newborn (1, []) fresh_world)
      filled
unfolding build_request wait_open is_shutdown
filled_reached =
    next
      (next
        (next
          (next
            (next
              (next
                (next (next here (run_opens _ refl))
                  (call Call.get_scan (1, Request.scan 0 ∷ []) (λ e. cc) refl))
                (puts_off 0 [] (Request.scan 0) (1, []) refl refl))
              (waits 0 (Request.scan 0 ∷ []) connects refl tt))
            (binds_events (Request.scan 0 ∷ []) refl))
          (waits_events 0 (Request.scan 0 ∷ []) [] connects refl tt))
        (attached (Request.scan 0 ∷ []) [] refl))
      (call Call.get_status (1, Request.status 1 ∷ []) (λ e. cc) refl)

LifeReach-Once_example : LifeOnce (bounded Request) 0 filled
LifeReach-Once_example =
    LifeReach-Once (bounded Request) 0 (bounded-IsMpsc Request) settings ok_peer (codes "wlan0")
      (1, []) fresh_world filled refl refl filled_reached

-- The owner gives up waiting for `run`.
resends-hangs_example :
    (run_cancelled filled ≡ filled)
    ⊎ LifeReach
        (bounded Request)
        settings
        ok_peer
        (codes "wlan0")
        (run_cancelled filled)
        (run_cancelled filled)
    ⊎ LifeReach
        (bounded Request)
        settings
        ok_peer
        (codes "wlan0")
        (station_dropped filled)
        (run_cancelled filled)
resends-hangs_example =
    resends-hangs (bounded Request) settings ok_peer (codes "wlan0") filled (run_cancelled filled)
      (Request.scan 0) [] (bounded-IsMpsc Request) refl (omega arith) (next here (cancels tt))

-- A run that was cancelled while its socket opened, and a status that is asked for behind it.
abbrev cancelled_early : Life (Held Request)
cancelled_early = run_cancelled (newborn (1, []) fresh_world)

cancelled_early_reached :
    LifeReach
      (bounded Request)
      settings
      ok_peer
      (codes "wlan0")
      (newborn (1, []) fresh_world)
      cancelled_early
cancelled_early_reached = next (next here (run_opens none refl)) (cancels tt)

abbrev asked_later : Life (Held Request)
asked_later = record cancelled_early { ch = (1, Request.status 0 ∷ []); fresh = 1 }

idle-waits_example :
    (((y : Option (Result SocketError (Unit {0}))) × (asked_later.stage ≡ idle y))
      × (life_outcome (bounded Request) 0 asked_later ≡ Outcome.waits))
    ⊎ Again 1 asked_later
unfolding build_request
idle-waits_example =
    idle-waits (bounded Request) (bounded-IsMpsc Request) settings ok_peer (codes "wlan0") (1, [])
      (1, Request.status 0 ∷ []) fresh_world cancelled_early asked_later Call.get_status none refl
      refl cancelled_early_reached refl refl here
