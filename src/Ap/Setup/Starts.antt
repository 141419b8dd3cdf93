-- ===== src/Ap/Setup/Starts.antt =====
-- An access point from its setup, src/ap/setup.rs, to the start of its loop, `run` of src/ap/mod.rs.
use mathlib.Core.List.{append_assoc, append-nil}
use wifi_ctrl.Prelude.{
  ℕ, ◌≤◌, List, [], ◌∷◌, ◌++◌, Option, none, some, last_some, ◌≡◌, refl, ap, sym, ◌∙◌,
}
use wifi_ctrl.Text.{Bytes, codes}
use wifi_ctrl.Socket.Channel.{Mpsc, IsMpsc}
use wifi_ctrl.Socket.Channel.Make.{Maker, IsMaker, Empty, StartsAt, Requeued-StartsAt, Empty-fits}
use wifi_ctrl.Ap.Attach.{push_options, attach_command}
use wifi_ctrl.Ap.Client.{Request}
use wifi_ctrl.Ap.Setup.{
  WifiAp, WifiApSetup, complete, set_up, with_capacities, push_all, ap_settings, Change,
  socket_path, attach_options, command_timeout, attach_retries, attach_retry_delay, change,
  change_all, set_socket_path, add_attach_options, set_command_timeout, set_attach_retries,
  set_attach_retry_delay, path_default_server, default_attach_retries,
}
use wifi_ctrl.Ap.Start.{ApSettings, ApStartup, start_ap}
use wifi_ctrl.Ap.Start.Resend.{ApOpens, start_ap-resend}

-- The options that the setters add, in the order of the calls.
abbrev pub options_of : List Change → List Bytes
options_of [] = []
options_of (attach_options options ∷ xs) = options ++ options_of xs
options_of (x ∷ xs) = options_of xs

-- The values that a setter gives to the other fields.
abbrev pub new_path : Change → Option Bytes
new_path (socket_path p) = some p
new_path _ = none

abbrev pub new_command_timeout : Change → Option ℕ
new_command_timeout (command_timeout t) = some t
new_command_timeout _ = none

abbrev pub new_attach_retries : Change → Option ℕ
new_attach_retries (attach_retries n) = some n
new_attach_retries _ = none

abbrev pub new_attach_retry_delay : Change → Option ℕ
new_attach_retry_delay (attach_retry_delay t) = some t
new_attach_retry_delay _ = none

-- The access point after the setters: its options are added to, and its other fields have the last value
-- that was set.
abbrev pub changed : {C B : Type 0} → List Change → WifiAp C B → WifiAp C B
changed xs w = record w {
  socket_path = last_some new_path w.socket_path xs;
  attach_options = w.attach_options ++ options_of xs;
  command_timeout = last_some new_command_timeout w.command_timeout xs;
  attach_retries = last_some new_attach_retries w.attach_retries xs;
  attach_retry_delay = last_some new_attach_retry_delay w.attach_retry_delay xs;
}

-- A blank before each.
abbrev pub spaced : List Bytes → Bytes
spaced [] = []
spaced (o ∷ options) = b' ' ∷ (o ++ spaced options)

push_all-append : (old options : List Bytes) → push_all old options ≡ old ++ options
unfolding push_all
push_all-append old [] = sym (append-nil old)
push_all-append old (o ∷ options) =
    push_all-append (old ++ o ∷ []) options ∙ append_assoc old (o ∷ []) options

push_options-spaced :
    (cmd : Bytes) (options : List Bytes) → push_options cmd options ≡ cmd ++ spaced options
unfolding push_options
push_options-spaced cmd [] = sym (append-nil cmd)
push_options-spaced cmd (o ∷ options) =
    push_options-spaced ((cmd ++ b' ' ∷ []) ++ o) options
    ∙ append_assoc (cmd ++ b' ' ∷ []) o (spaced options)
    ∙ append_assoc cmd (b' ' ∷ []) (o ++ spaced options)

with_options : {C B : Type 0} → WifiAp C B → List Bytes → WifiAp C B
with_options w options = record w { attach_options = options }

change_all-changed :
    {C B : Type 0} (xs : List Change) (u : WifiApSetup C B)
    → complete (change_all xs u) ≡ changed xs (complete u)
unfolding change_all change set_socket_path add_attach_options set_command_timeout
    set_attach_retries set_attach_retry_delay with_options
change_all-changed [] u = ap (with_options (complete u)) (sym (append-nil u.wifi.attach_options))
change_all-changed (socket_path p ∷ xs) u = change_all-changed xs (set_socket_path p u)
change_all-changed (attach_options options ∷ xs) u =
    change_all-changed xs (add_attach_options options u)
    ∙ ap (with_options (changed xs (complete u))) (
        ap (λ l. l ++ options_of xs) (push_all-append u.wifi.attach_options options)
        ∙ append_assoc u.wifi.attach_options options (options_of xs))
change_all-changed (command_timeout t ∷ xs) u = change_all-changed xs (set_command_timeout t u)
change_all-changed (attach_retries n ∷ xs) u = change_all-changed xs (set_attach_retries n u)
change_all-changed (attach_retry_delay t ∷ xs) u =
    change_all-changed xs (set_attach_retry_delay t u)

module _ {C B : Type 0} (channels : Maker C) (senders : Maker B) where
  -- The setup at these capacities.
  with_capacities-set_up :
      (n b : ℕ) (ch : C) (sender : B)
      → channels.make n ≡ some ch
      → senders.make b ≡ some sender
      → with_capacities channels senders n b ≡ some (set_up ch sender)
  unfolding with_capacities
  with_capacities-set_up n b ch sender e f = rw (e, f, with_capacities) refl

  -- What `run` reads of an access point that is changed from the defaults.
  abbrev pub default_settings : List Change → ApSettings
  default_settings xs = record {
    socket_path = last_some new_path path_default_server xs;
    attach_options = options_of xs;
    attach_retries = last_some new_attach_retries default_attach_retries xs;
  }

  -- With channels as documented, and capacities `n` for requests and `b` for broadcasts that neither of
  -- them refuses: the setup does not panic. Whatever setters are called, the access point has the last path
  -- and the last number of attempts that were set, or the defaults, and the command by which it registers
  -- is "ATTACH" and all options that were added, in order, each behind a blank. When with these its
  -- sockets have opened, with `ds` and then `es` put off, and the daemon has taken the registration, the
  -- loop starts with these requests, in order, if they are `n` at most, and otherwise `run` hangs.
  pub with_capacities-attaches :
      (m : Mpsc Request C) (n b : ℕ) (xs : List Change) (u : ApStartup) (ds es : List Request)
      → IsMpsc m
      → IsMaker (Empty m) channels
      → IsMaker (λ k sender. Unit {0}) senders
      → 1 ≤ n
      → n ≤ channels.limit
      → 1 ≤ b
      → b ≤ senders.limit
      → ApOpens (default_settings xs) u ds es
      → (st : WifiApSetup C B) × (with_capacities channels senders n b ≡ some st)
        × (ap_settings (complete (change_all xs st)) ≡ default_settings xs)
        × (attach_command (complete (change_all xs st)).attach_options
            ≡ codes "ATTACH" ++ spaced (options_of xs))
        × StartsAt m n (ds ++ es) (
            start_ap m
              (ap_settings (complete (change_all xs st)))
              u
              (complete (change_all xs st)).request_channel)
  unfolding attach_command
  with_capacities-attaches m n b xs u ds es laws makes makes_sender n1 n2 b1 b2 o =
      let (ch, e, fresh) = makes.make_some n n1 n2 in
      let (sender, f, _) = makes_sender.make_some b b1 b2 in
      let same = change_all-changed xs (set_up ch sender) in
      (
        set_up ch sender,
        with_capacities-set_up n b ch sender e f,
        ap ap_settings same,
        ap (λ w. push_options (codes "ATTACH") w.attach_options) same
            ∙ push_options-spaced (codes "ATTACH") (options_of xs),
        rw same (
            Requeued-StartsAt m n (ds ++ es) ch _ fresh (
              start_ap-resend m (default_settings xs) u ch ds es laws o (Empty-fits m n ch fresh))),
      )
