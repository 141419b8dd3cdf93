-- ===== src/Tests/ApSetup.antt =====
-- An access point with room for 8 requests, changed by setters.
use wifi_ctrl.Prelude.{ℕ, List, [], ◌∷◌, ◌++◌, some, ok, ◌≡◌, refl, arith}
use wifi_ctrl.Text.{codes, bytes_eq}
use wifi_ctrl.Text.Trim.{trim_end_matches}
use wifi_ctrl.Text.Utf8.{from_utf8}
use wifi_ctrl.Socket.Channel.Make.{StartsAt}
use wifi_ctrl.Socket.Handle.{command_matching, parse_resp}
use wifi_ctrl.Socket.Waits.{now, put_off}
use wifi_ctrl.Ap.Attach.{attach, retry_command, attach_command, push_options}
use wifi_ctrl.Ap.Client.{Request, is_shutdown}
use wifi_ctrl.Ap.Setup.{
  WifiApSetup, Change, attach_options, attach_retries, complete, with_capacities, change_all,
  ap_settings,
}
use wifi_ctrl.Ap.Setup.Starts.{default_settings, options_of, spaced, with_capacities-attaches}
use wifi_ctrl.Ap.Start.{new_world, start_ap}
use wifi_ctrl.Ap.Start.Resend.{ApOpens}
use wifi_ctrl.Tests.AccessPoint.{roomy}
use wifi_ctrl.Tests.Bounded.{
  Held, bounded, bounded-IsMpsc, maker, maker-IsMaker, senders, senders-IsMaker,
}

abbrev changes : List Change
changes =
    attach_options (codes "probe_rx_events=1" ∷ [])
    ∷ attach_retries 2
    ∷ attach_options (codes "b" ∷ [])
    ∷ []

attach-changes :
    (attach 1024 roomy.event_peer
      (default_settings (maker Request) senders changes).attach_options
      (default_settings (maker Request) senders changes).attach_retries
      new_world).0
    ≡ ok tt
unfolding attach retry_command attach_command push_options command_matching parse_resp from_utf8
    trim_end_matches bytes_eq
attach-changes = refl

roomy-ApOpens :
    ApOpens
      (default_settings (maker Request) senders changes)
      roomy
      (Request.status 1 ∷ [])
      (Request.enable 2 ∷ [])
unfolding is_shutdown
roomy-ApOpens = record {
  event_bound_is = refl;
  event_waits = put_off refl now;
  attached_is = attach-changes;
  bound_is = refl;
  waits = put_off refl now;
}

with_capacities-attaches_example :
    (st : WifiApSetup (Held Request) ℕ) × (with_capacities (maker Request) senders 8 4 ≡ some st)
    × (ap_settings (complete (change_all changes st))
        ≡ default_settings (maker Request) senders changes)
    × (attach_command (complete (change_all changes st)).attach_options
        ≡ codes "ATTACH" ++ spaced (options_of changes))
    × StartsAt (bounded Request) 8 (Request.status 1 ∷ Request.enable 2 ∷ []) (
        start_ap
          (bounded Request)
          (ap_settings (complete (change_all changes st)))
          roomy
          (complete (change_all changes st)).request_channel)
with_capacities-attaches_example =
    with_capacities-attaches (maker Request) senders (bounded Request) 8 4 changes roomy
      (Request.status 1 ∷ []) (Request.enable 2 ∷ []) (bounded-IsMpsc Request)
      (maker-IsMaker Request) senders-IsMaker (omega arith) (omega arith) (omega arith)
      (omega arith) roomy-ApOpens
