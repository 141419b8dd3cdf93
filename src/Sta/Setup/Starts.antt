-- ===== src/Sta/Setup/Starts.antt =====
-- A station from its setup, src/sta/setup.rs, to the start of its loop, `run` of src/sta/mod.rs.
use wifi_ctrl.Prelude.{ℕ, ◌≤◌, List, [], ◌∷◌, ◌++◌, Option, none, some, ◌≡◌, refl, ap, last_some}
use wifi_ctrl.Text.{Bytes}
use wifi_ctrl.Socket.Channel.{Mpsc, IsMpsc}
use wifi_ctrl.Socket.Channel.Make.{Maker, IsMaker, Empty, StartsAt, Requeued-StartsAt, Empty-fits}
use wifi_ctrl.Sta.Client.{Request}
use wifi_ctrl.Sta.Setup.{
  WifiStation, WifiSetup, complete, set_up, with_capacities, Change, socket_path, select_timeout,
  command_timeout, change, change_all, set_socket_path, set_select_timeout, set_command_timeout,
  path_default_server, default_select_timeout, default_command_timeout,
}
use wifi_ctrl.Sta.Start.{Startup, start}
use wifi_ctrl.Sta.Start.Requeue.{Opens, start-resend}

-- The values that a setter gives to each field.
abbrev pub new_path : Change → Option Bytes
new_path (socket_path p) = some p
new_path _ = none

abbrev pub new_select_timeout : Change → Option ℕ
new_select_timeout (select_timeout t) = some t
new_select_timeout _ = none

abbrev pub new_command_timeout : Change → Option ℕ
new_command_timeout (command_timeout t) = some t
new_command_timeout _ = none

-- The station after the setters.
abbrev pub changed : {C B : Type 0} → List Change → WifiStation C B → WifiStation C B
changed xs w = record w {
  socket_path = last_some new_path w.socket_path xs;
  select_timeout = last_some new_select_timeout w.select_timeout xs;
  command_timeout = last_some new_command_timeout w.command_timeout xs;
}

change_all-changed :
    {C B : Type 0} (xs : List Change) (u : WifiSetup C B)
    → complete (change_all xs u) ≡ changed xs (complete u)
unfolding change_all change set_socket_path set_select_timeout set_command_timeout
change_all-changed [] u = refl
change_all-changed (socket_path p ∷ xs) u =
    change_all-changed xs (record { wifi = record u.wifi { socket_path = p } })
change_all-changed (select_timeout t ∷ xs) u =
    change_all-changed xs (record { wifi = record u.wifi { select_timeout = t } })
change_all-changed (command_timeout t ∷ xs) u =
    change_all-changed xs (record { wifi = record u.wifi { command_timeout = t } })

module _ {C B : Type 0} (channels : Maker C) (senders : Maker B) where
  -- The setup at these capacities.
  with_capacities-set_up :
      (n b : ℕ) (ch : C) (sender : B)
      → channels.make n ≡ some ch
      → senders.make b ≡ some sender
      → with_capacities channels senders n b ≡ some (set_up ch sender)
  unfolding with_capacities
  with_capacities-set_up n b ch sender e f = rw (e, f, with_capacities) refl

  module _ (m : Mpsc Request C) where
    -- With channels as documented, and capacities `n` for requests and `b` for broadcasts that neither
    -- of them refuses: the setup does not panic. Whatever setters are called, the station that it gives
    -- has the last value that each set, or the default. When its sockets have opened, with `ds` and then
    -- `es` put off, its loop starts with these requests, in order, if they are `n` at most, and otherwise
    -- `run` hangs.
    pub with_capacities-starts :
        (n b : ℕ) (xs : List Change) (u : Startup) (ds es : List Request)
        → IsMpsc m
        → IsMaker (Empty m) channels
        → IsMaker (λ k sender. Unit {0}) senders
        → 1 ≤ n
        → n ≤ channels.limit
        → 1 ≤ b
        → b ≤ senders.limit
        → Opens u ds es
        → (st : WifiSetup C B) × (with_capacities channels senders n b ≡ some st)
          × (complete (change_all xs st)
              ≡ changed xs (record {
                socket_path = path_default_server;
                request_channel = st.wifi.request_channel;
                broadcast_sender = st.wifi.broadcast_sender;
                select_timeout = default_select_timeout;
                command_timeout = default_command_timeout;
              }))
          × StartsAt m n (ds ++ es) (
              start m
                (complete (change_all xs st)).socket_path
                u
                (complete (change_all xs st)).request_channel)
    with_capacities-starts n b xs u ds es laws makes makes_sender n1 n2 b1 b2 o =
        let (ch, e, fresh) = makes.make_some n n1 n2 in
        let (sender, f, _) = makes_sender.make_some b b1 b2 in
        let kept : (complete (change_all xs (set_up ch sender))).request_channel ≡ ch =
          ap (λ w. w.request_channel) (change_all-changed xs (set_up ch sender)) in
        (
          set_up ch sender,
          with_capacities-set_up n b ch sender e f,
          change_all-changed xs (set_up ch sender),
          rw kept (
              Requeued-StartsAt m n (ds ++ es) ch _ fresh (
                start-resend m (complete (change_all xs (set_up ch sender))).socket_path u ch ds es
                  laws o (Empty-fits m n ch fresh))),
        )
