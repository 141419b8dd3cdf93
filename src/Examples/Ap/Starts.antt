-- ===== src/Examples/Ap/Starts.antt =====
-- `main` of examples/wifi-ap.rs, up to the start of the loop of src/ap/mod.rs.
use wifi_ctrl.Prelude.{ℕ, ◌≤◌, ◌<◌, List, [], ◌∷◌, ◌++◌, some, ok, length, ◌≡◌, refl, ap, arith}
use wifi_ctrl.Text.{Bytes, codes}
use wifi_ctrl.Text.Number.{parse_unsigned, usize_max}
use wifi_ctrl.Text.Trim.{trim}
use wifi_ctrl.Socket.Channel.{Mpsc, IsMpsc}
use wifi_ctrl.Socket.Channel.Make.{Maker, IsMaker, Empty, StartsAt}
use wifi_ctrl.Ap.Client.{Request}
use wifi_ctrl.Ap.Setup.{WifiAp, complete, new, socket_path, change_all, change, ap_settings}
use wifi_ctrl.Ap.Setup.Starts.{with_capacities-attaches, default_settings}
use wifi_ctrl.Ap.Attach.{attach_command}
use wifi_ctrl.Ap.Start.{ApStartup, start_ap}
use wifi_ctrl.Ap.Start.Resend.{ApOpens}
use wifi_ctrl.Examples.{NetworkInterface, accept}
use wifi_ctrl.Examples.Listed.{Chosen, PathFor, sort_by-Chosen, get_elem?-sort_by, accept-PathFor}
use wifi_ctrl.Examples.Ap.{path_front, main}

module _ {C B : Type 0} (m : Mpsc Request C) (channels : Maker C) (senders : Maker B) where
  -- With channels as documented and room for 32 requests and broadcasts: when the interfaces can be
  -- listed, and the first line is, without the white space around it, the number of one of them in the
  -- order of their indices, the program does not panic before it runs the access point. Its path is the
  -- second line without the white space around it, or, if nothing is left, the interface's path in
  -- "/var/run/hostapd/"; it registers with the plain "ATTACH", up to 240 times. When with these its
  -- sockets have opened, with `ds` and then `es` put off, and the daemon has taken the registration, its
  -- loop starts with these requests, in order, if they are 32 at most, and otherwise `run` hangs.
  pub main-attaches :
      (l : List NetworkInterface) (first second : Bytes) (i : ℕ) (u : ApStartup)
      (ds es : List Request)
      → IsMpsc m
      → IsMaker (Empty m) channels
      → IsMaker (λ k sender. Unit {0}) senders
      → 32 ≤ channels.limit
      → 32 ≤ senders.limit
      → parse_unsigned usize_max (trim first) ≡ ok i
      → i < length l
      → ApOpens (default_settings channels senders []) u ds es
      → (itf : NetworkInterface) × (w : WifiAp C B) × (main channels senders
            (some l)
            (some first)
            (some second)
          ≡ some w)
        × Chosen l i itf
        × PathFor (path_front ++ itf.name) second w.socket_path
        × (attach_command w.attach_options ≡ codes "ATTACH")
        × (w.attach_retries ≡ 240)
        × StartsAt m 32 (ds ++ es) (start_ap m (ap_settings w) u w.request_channel)
  unfolding main new change_all change
  main-attaches l first second i u ds es laws makes makes_sender room room_b e h o =
      let (itf, at_i) = get_elem?-sort_by l i h in
      let path = accept (path_front ++ itf.name) second in
      let opens : ApOpens (default_settings channels senders (socket_path path ∷ [])) u ds es =
        record {
          event_bound_is = o.event_bound_is;
          event_waits = o.event_waits;
          attached_is = o.attached_is;
          bound_is = o.bound_is;
          waits = o.waits;
        } in
      let (st, made_it, set_is, command_is, starts) =
        with_capacities-attaches channels senders m 32 32 (socket_path path ∷ []) u ds es laws makes
          makes_sender (omega arith) room (omega arith) room_b opens in
      (
        itf,
        complete (change_all (socket_path path ∷ []) st),
        rw (e, made_it, at_i) refl,
        sort_by-Chosen l i itf at_i,
        accept-PathFor (path_front ++ itf.name) second,
        command_is,
        ap (λ s. s.attach_retries) set_is,
        starts,
      )
