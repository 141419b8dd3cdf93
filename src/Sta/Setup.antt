-- ===== src/Sta/Setup.antt =====
-- src/sta/setup.rs: `WifiSetup`, which makes a `WifiStation`.
pub mod Starts
use wifi_ctrl.Prelude.{ℕ, List, [], ◌∷◌, Option, none, some}
use wifi_ctrl.Text.{Bytes, codes}
use wifi_ctrl.Socket.Channel.Make.{Maker}

-- `WifiStation` of src/sta/mod.rs. Its receiver, its own sender and the clients' senders are ends of one
-- request channel. Durations are in milliseconds.
pub record WifiStation (C B : Type 0) : Type 0 where
  pub socket_path : Bytes
  pub request_channel : C
  pub broadcast_sender : B
  pub select_timeout : ℕ
  pub command_timeout : ℕ

-- The setup's own `request_client` is a sender of the station's request channel.
pub record WifiSetup (C B : Type 0) : Type 0 where
  pub wifi : WifiStation C B

abbrev pub path_default_server : Bytes
path_default_server = codes "/var/run/wpa_supplicant/wlan2"

abbrev pub default_command_timeout : ℕ
default_command_timeout = 3000

abbrev pub default_select_timeout : ℕ
default_select_timeout = 10000

abbrev pub default_channel_size : ℕ
default_channel_size = 32

module _ {C B : Type 0} where
  unfoldable pub set_socket_path : Bytes → WifiSetup C B → WifiSetup C B
  set_socket_path path u = record { wifi = record u.wifi { socket_path = path } }

  unfoldable pub set_select_timeout : ℕ → WifiSetup C B → WifiSetup C B
  set_select_timeout timeout u = record { wifi = record u.wifi { select_timeout = timeout } }

  unfoldable pub set_command_timeout : ℕ → WifiSetup C B → WifiSetup C B
  set_command_timeout timeout u = record { wifi = record u.wifi { command_timeout = timeout } }

  -- Clones of the sender end, and of the broadcast sender, as the ends that they belong to.
  abbrev pub get_request_client : WifiSetup C B → C
  get_request_client u = u.wifi.request_channel

  abbrev pub get_broadcast_receiver : WifiSetup C B → B
  get_broadcast_receiver u = u.wifi.broadcast_sender

  abbrev pub complete : WifiSetup C B → WifiStation C B
  complete u = u.wifi

  abbrev pub set_up : C → B → WifiSetup C B
  set_up ch b = record {
    wifi = record {
      socket_path = path_default_server;
      request_channel = ch;
      broadcast_sender = b;
      select_timeout = default_select_timeout;
      command_timeout = default_command_timeout;
    };
  }

  module _ (channels : Maker C) (senders : Maker B) where
    unfoldable pub with_capacities : ℕ → ℕ → Option (WifiSetup C B)
    with_capacities request_channel_size broadcast_channel_size =
        elim (channels.make request_channel_size) [
          | some ch ↦ elim (senders.make broadcast_channel_size) [
            | some b ↦ some (set_up ch b)
            | none ↦ none
          ]
          | none ↦ none
        ]

    unfoldable pub new : Option (WifiSetup C B)
    unfolding with_capacities
    new = with_capacities default_channel_size default_channel_size

-- The setters that a program calls on its setup.
pub data Change : Type 0 where
  socket_path : Bytes → Change
  select_timeout command_timeout : ℕ → Change

unfoldable pub change : {C B : Type 0} → Change → WifiSetup C B → WifiSetup C B
unfolding set_socket_path set_select_timeout set_command_timeout
change (socket_path path) u = set_socket_path path u
change (select_timeout t) u = set_select_timeout t u
change (command_timeout t) u = set_command_timeout t u

unfoldable pub change_all : {C B : Type 0} → List Change → WifiSetup C B → WifiSetup C B
unfolding change
change_all [] u = u
change_all (x ∷ xs) u = change_all xs (change x u)
