-- ===== src/Ap/Setup.antt =====
-- src/ap/setup.rs: `WifiSetup`, which makes a `WifiAp`.
pub mod Starts
use wifi_ctrl.Prelude.{ℕ, List, [], ◌∷◌, ◌++◌, Option, none, some}
use wifi_ctrl.Text.{Bytes, codes}
use wifi_ctrl.Socket.Channel.Make.{Maker}
use wifi_ctrl.Ap.Start.{ApSettings}

-- `WifiAp` of src/ap/mod.rs. Its receiver, its own sender and the clients' senders are ends of one request
-- channel. Durations are in milliseconds.
pub record WifiAp (C B : Type 0) : Type 0 where
  pub socket_path : Bytes
  pub attach_options : List Bytes
  pub request_channel : C
  pub broadcast_sender : B
  pub command_timeout : ℕ
  pub attach_retries : ℕ
  pub attach_retry_delay : ℕ

-- The setup's own `request_client` is a sender of the access point's request channel.
pub record WifiApSetup (C B : Type 0) : Type 0 where
  pub wifi : WifiAp C B

abbrev pub path_default_server : Bytes
path_default_server = codes "/var/run/hostapd/wlan1"

abbrev pub default_command_timeout : ℕ
default_command_timeout = 3000

abbrev pub default_attach_retries : ℕ
default_attach_retries = 240

abbrev pub default_attach_retry_delay : ℕ
default_attach_retry_delay = 250

abbrev pub default_channel_size : ℕ
default_channel_size = 32

-- `for o in options`.
unfoldable pub push_all : List Bytes → List Bytes → List Bytes
push_all attach_options [] = attach_options
push_all attach_options (o ∷ options) = push_all (attach_options ++ o ∷ []) options

-- What `run` reads of the fields.
abbrev pub ap_settings : {C B : Type 0} → WifiAp C B → ApSettings
ap_settings w = record {
  socket_path = w.socket_path;
  attach_options = w.attach_options;
  attach_retries = w.attach_retries;
}

module _ {C B : Type 0} where
  unfoldable pub set_socket_path : Bytes → WifiApSetup C B → WifiApSetup C B
  set_socket_path path u = record { wifi = record u.wifi { socket_path = path } }

  unfoldable pub add_attach_options : List Bytes → WifiApSetup C B → WifiApSetup C B
  unfolding push_all
  add_attach_options options u = record {
    wifi = record u.wifi { attach_options = push_all u.wifi.attach_options options };
  }

  unfoldable pub set_command_timeout : ℕ → WifiApSetup C B → WifiApSetup C B
  set_command_timeout timeout u = record { wifi = record u.wifi { command_timeout = timeout } }

  unfoldable pub set_attach_retries : ℕ → WifiApSetup C B → WifiApSetup C B
  set_attach_retries retries u = record { wifi = record u.wifi { attach_retries = retries } }

  unfoldable pub set_attach_retry_delay : ℕ → WifiApSetup C B → WifiApSetup C B
  set_attach_retry_delay delay u = record { wifi = record u.wifi { attach_retry_delay = delay } }

  -- Clones of the sender end, and of the broadcast sender, as the ends that they belong to.
  abbrev pub get_request_client : WifiApSetup C B → C
  get_request_client u = u.wifi.request_channel

  abbrev pub get_broadcast_receiver : WifiApSetup C B → B
  get_broadcast_receiver u = u.wifi.broadcast_sender

  abbrev pub complete : WifiApSetup C B → WifiAp C B
  complete u = u.wifi

  abbrev pub set_up : C → B → WifiApSetup C B
  set_up ch b = record {
    wifi = record {
      socket_path = path_default_server;
      attach_options = [];
      request_channel = ch;
      broadcast_sender = b;
      command_timeout = default_command_timeout;
      attach_retries = default_attach_retries;
      attach_retry_delay = default_attach_retry_delay;
    };
  }

  module _ (channels : Maker C) (senders : Maker B) where
    unfoldable pub with_capacities : ℕ → ℕ → Option (WifiApSetup C B)
    with_capacities request_channel_size broadcast_channel_size =
        elim (channels.make request_channel_size) [
          | some ch ↦ elim (senders.make broadcast_channel_size) [
            | some b ↦ some (set_up ch b)
            | none ↦ none
          ]
          | none ↦ none
        ]

    unfoldable pub new : Option (WifiApSetup C B)
    unfolding with_capacities
    new = with_capacities default_channel_size default_channel_size

-- The setters that a program calls on its setup.
pub data Change : Type 0 where
  socket_path : Bytes → Change
  attach_options : List Bytes → Change
  command_timeout attach_retries attach_retry_delay : ℕ → Change

unfoldable pub change : {C B : Type 0} → Change → WifiApSetup C B → WifiApSetup C B
unfolding set_socket_path add_attach_options set_command_timeout set_attach_retries
    set_attach_retry_delay
change (socket_path path) u = set_socket_path path u
change (attach_options options) u = add_attach_options options u
change (command_timeout t) u = set_command_timeout t u
change (attach_retries n) u = set_attach_retries n u
change (attach_retry_delay t) u = set_attach_retry_delay t u

unfoldable pub change_all : {C B : Type 0} → List Change → WifiApSetup C B → WifiApSetup C B
unfolding change
change_all [] u = u
change_all (x ∷ xs) u = change_all xs (change x u)
