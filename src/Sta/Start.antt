-- ===== src/Sta/Start.antt =====
-- `run` of src/sta/mod.rs up to the event loop, and `EventSocket::new` of src/sta/event_socket.rs: both
-- sockets are opened, and the requests that came meanwhile are sent back to the request channel.
pub mod Requeue
use wifi_ctrl.Prelude.{
  ℕ, Bool, true, false, List, [], ◌∷◌, ◌++◌, Option, none, some, ltb, if◌then◌else◌, Result, ok,
  err, length,
}
use wifi_ctrl.Text.{Bytes}
use wifi_ctrl.Errors.{IoError, SocketError, io}
use wifi_ctrl.Socket.Channel.{Mpsc, Start, start_failed, start_waits, requeue}
use wifi_ctrl.Socket.Open.{Happening, Opening, opened, gave_up, opening, open_socket}
use wifi_ctrl.Sta.Client.{Request, is_shutdown}

-- What the outside does while `run` starts: for each socket the outcome of binding it and the
-- happenings of its wait, and the outcome of sending "ATTACH".
pub record Startup : Type 0 where
  pub bound : Result IoError (Unit {0})
  pub happenings : List (Happening Request)
  pub event_bound : Result IoError (Unit {0})
  pub event_happenings : List (Happening Request)
  pub attached : Result IoError ℕ

-- `EventSocket::new`.
unfoldable pub new_event_socket : Bytes → Startup → Opening Request
new_event_socket path u = elim (open_socket is_shutdown path u.event_bound u.event_happenings) [
  | opened deferred ↦ elim u.attached [ ok n ↦ opened deferred | err e ↦ gave_up (io e) ]
  | gave_up e ↦ gave_up e
  | opening n deferred ↦ opening n deferred
]

-- `run` up to its loop; `ch` is the request channel when both sockets are open.
module _ {C : Type 0} (m : Mpsc Request C) where
  unfoldable pub start : Bytes → Startup → C → Start C
  unfolding requeue
  start path u ch = elim (open_socket is_shutdown path u.bound u.happenings) [
    | opened deferred ↦ elim (new_event_socket path u) [
      | opened next_deferred ↦ requeue m (deferred ++ next_deferred) ch
      | gave_up e ↦ start_failed e
      | opening n next_deferred ↦ start_waits
    ]
    | gave_up e ↦ start_failed e
    | opening n deferred ↦ start_waits
  ]
