-- ===== src/Examples/Sta/Starts.antt =====
-- `main` of examples/wifi-sta.rs, up to the start of the loop of src/sta/mod.rs.
use wifi_ctrl.Prelude.{
  ℕ, ◌≤◌, ◌<◌, List, [], ◌∷◌, ◌++◌, some, ok, length, ◌≡◌, refl, arith, ap, ◌∙◌, inl, inr,
}
use wifi_ctrl.Text.{Bytes}
use wifi_ctrl.Text.Number.{parse_unsigned, usize_max}
use wifi_ctrl.Text.Trim.{trim}
use wifi_ctrl.Socket.Channel.{Mpsc, IsMpsc}
use wifi_ctrl.Socket.Channel.Make.{Maker, IsMaker, Empty, StartsAt}
use wifi_ctrl.Socket.World.{broadcast}
use wifi_ctrl.Sta.Client.{Request, Broadcast}
use wifi_ctrl.Sta.Run.{enter}
use wifi_ctrl.Sta.Script.{Launching, no_call, put_off, script_of, requests_of, made_of, launch}
use wifi_ctrl.Sta.Station.Balance.{StaWorld}
use wifi_ctrl.Sta.Setup.{WifiStation, complete, new, socket_path, change_all, change}
use wifi_ctrl.Sta.Setup.Starts.{with_capacities-starts}
use wifi_ctrl.Sta.Start.{Startup, start}
use wifi_ctrl.Sta.Start.Requeue.{Opens}
use wifi_ctrl.Examples.{NetworkInterface, accept}
use wifi_ctrl.Examples.Listed.{Chosen, PathFor, sort_by-Chosen, get_elem?-sort_by, accept-PathFor}
use wifi_ctrl.Examples.Sta.{path_front, main, app}

requests_of-few : (la : Launching) → length (requests_of la) ≤ 1
requests_of-few (no_call script) = omega arith
requests_of-few (put_off k f) = omega arith

module _ {C B : Type 0} (m : Mpsc Request C) (channels : Maker C) (senders : Maker B) where
  -- The station, and the start of its loop with the requests `ds` and `es` that were put off.
  pub main-starts :
      (l : List NetworkInterface) (first second : Bytes) (i : ℕ) (u : Startup)
      (ds es : List Request)
      → IsMpsc m
      → IsMaker (Empty m) channels
      → IsMaker (λ k sender. Unit {0}) senders
      → 32 ≤ channels.limit
      → 32 ≤ senders.limit
      → parse_unsigned usize_max (trim first) ≡ ok i
      → i < length l
      → Opens u ds es
      → (itf : NetworkInterface) × (w : WifiStation C B) × (main channels senders
            (some l)
            (some first)
            (some second)
          ≡ some w)
        × Chosen l i itf
        × PathFor (path_front ++ itf.name) second w.socket_path
        × StartsAt m 32 (ds ++ es) (start m w.socket_path u w.request_channel)
  unfolding main new change_all change
  main-starts l first second i u ds es laws makes makes_sender room room_b e h o =
      let (itf, at_i) = get_elem?-sort_by l i h in
      let path = accept (path_front ++ itf.name) second in
      let (st, made_it, w_is, starts) =
        with_capacities-starts channels senders m 32 32 (socket_path path ∷ []) u ds es laws makes
          makes_sender (omega arith) room (omega arith) room_b o in
      (
        itf,
        complete (change_all (socket_path path ∷ []) st),
        rw (e, made_it, at_i) refl,
        sort_by-Chosen l i itf at_i,
        accept-PathFor (path_front ++ itf.name) second,
        starts,
      )

  -- With channels as documented and room for 32 requests and broadcasts: when the interfaces can be
  -- listed, the first line is, without the white space around it, the number of one of them in the order
  -- of their indices, and the sockets open, with nothing put off or only the scan that the example asks
  -- for first: the program does not panic. The station's path is the second line without the white space
  -- around it, or, if nothing is left, the interface's path in "/var/run/wpa_supplicant/". Its loop starts,
  -- "ready" is broadcast, and the example is at its first call or waits for it.
  pub main-launches :
      (la : Launching) (w : StaWorld) (l : List NetworkInterface) (first second : Bytes) (i : ℕ)
      (u : Startup) (ds es : List Request)
      → IsMpsc m
      → IsMaker (Empty m) channels
      → IsMaker (λ k sender. Unit {0}) senders
      → 32 ≤ channels.limit
      → 32 ≤ senders.limit
      → parse_unsigned usize_max (trim first) ≡ ok i
      → i < length l
      → Opens u ds es
      → script_of la ≡ app
      → ds ++ es ≡ requests_of la
      → (itf : NetworkInterface) × (st : WifiStation C B) × (main channels senders
            (some l)
            (some first)
            (some second)
          ≡ some st)
        × Chosen l i itf
        × PathFor (path_front ++ itf.name) second st.socket_path
        × (ch : C) × (m.queue ch ≡ requests_of la)
        × (enter (start m st.socket_path u st.request_channel) w (made_of la)
            ≡ some (launch la ch (broadcast Broadcast.ready w).1).system)
  unfolding enter
  main-launches la w l first second i u ds es laws makes makes_sender room room_b e h o is put =
      let (itf, st, made_it, chosen, path_is, starts) =
        main-starts l first second i u ds es laws makes makes_sender room room_b e h o in
      let few = requests_of-few la in
      let many : length (ds ++ es) ≡ length (requests_of la) = ap length put in
      elim starts [
        | inl (fits, ch, started_is, q) ↦ (
          itf,
          st,
          made_it,
          chosen,
          path_is,
          ch,
          q ∙ put,
          ap (λ x. enter x w (made_of la)) started_is,
        )
        | inr (full, hangs) ↦ absurd (omega (arith, few, many))
      ]
