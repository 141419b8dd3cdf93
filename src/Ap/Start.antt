-- ===== src/Ap/Start.antt =====
-- `run` of src/ap/mod.rs up to the event loop, and `EventSocket::new` of src/ap/event_socket.rs.
pub mod Resend
use wifi_ctrl.Prelude.{ℕ, List, [], ◌++◌, Result, ok, err}
use wifi_ctrl.Text.{Bytes}
use wifi_ctrl.Errors.{IoError}
use wifi_ctrl.Socket.Channel.{Mpsc, Start, start_failed, start_waits, requeue}
use wifi_ctrl.Socket.Open.{Happening, Opening, opened, gave_up, opening, open_socket}
use wifi_ctrl.Socket.World.{Peer, World, expired}
use wifi_ctrl.Ap.Attach.{attach}
use wifi_ctrl.Ap.Client.{Request, is_shutdown, Answer, Broadcast}

-- The fields of `WifiAp` that the start reads.
pub record ApSettings : Type 0 where
  pub socket_path : Bytes
  pub attach_options : List Bytes
  pub attach_retries : ℕ

-- What the outside does: for each socket the outcome of binding it and the happenings of its wait, and
-- the daemon at the event socket.
pub record ApStartup : Type 0 where
  pub event_bound : Result IoError (Unit {0})
  pub event_happenings : List (Happening Request)
  pub event_peer : Peer
  pub bound : Result IoError (Unit {0})
  pub happenings : List (Happening Request)

-- A socket that has just been opened.
abbrev pub new_world : World Answer Broadcast
new_world = record { inbox = []; window = expired; sent = []; answers = []; broadcasts = [] }

-- `EventSocket::new`; the event socket's buffer has 1024 bytes.
unfoldable pub new_ap_event_socket : ApSettings → ApStartup → Opening Request
new_ap_event_socket s u =
    elim (open_socket is_shutdown s.socket_path u.event_bound u.event_happenings) [
      | opened deferred ↦
          elim (attach 1024 u.event_peer s.attach_options s.attach_retries new_world).0 [
            | ok _ ↦ opened deferred
            | err e ↦ gave_up e
          ]
      | gave_up e ↦ gave_up e
      | opening n deferred ↦ opening n deferred
    ]

-- `run` up to its loop; `ch` is the request channel when both sockets are open.
module _ {C : Type 0} (m : Mpsc Request C) where
  unfoldable pub start_ap : ApSettings → ApStartup → C → Start C
  unfolding requeue
  start_ap s u ch = elim (new_ap_event_socket s u) [
    | opened deferred ↦ elim (open_socket is_shutdown s.socket_path u.bound u.happenings) [
      | opened next_deferred ↦ requeue m (deferred ++ next_deferred) ch
      | gave_up e ↦ start_failed e
      | opening n next_deferred ↦ start_waits
    ]
    | gave_up e ↦ start_failed e
    | opening n deferred ↦ start_waits
  ]
