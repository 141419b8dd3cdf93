-- ===== src/Ap/Start/Resend.antt =====
-- `run` of src/ap/mod.rs: which requests are in the channel when the loop starts.
use wifi_ctrl.Prelude.{◌≤◌, List, ◌++◌, ok, ◌≡◌, length}
use wifi_ctrl.Socket.Channel.{Mpsc, IsMpsc, requeue}
use wifi_ctrl.Socket.Channel.Room.{Requeued, requeue-Requeued}
use wifi_ctrl.Socket.Open.{opened}
use wifi_ctrl.Socket.Waits.{Waits, open_socket-Waits}
use wifi_ctrl.Ap.Attach.{attach}
use wifi_ctrl.Ap.Client.{Request, is_shutdown}
use wifi_ctrl.Ap.Start.{ApSettings, ApStartup, new_world, new_ap_event_socket, start_ap}

-- The sockets open, with these requests put off, and the daemon takes the commands that register for
-- its events.
pub record ApOpens (s : ApSettings) (u : ApStartup) (ds es : List Request) : Type 0 where
  pub event_bound_is : u.event_bound ≡ ok tt
  pub event_waits : Waits is_shutdown u.event_happenings ds
  pub attached_is : (attach 1024 u.event_peer s.attach_options s.attach_retries new_world).0 ≡ ok tt
  pub bound_is : u.bound ≡ ok tt
  pub waits : Waits is_shutdown u.happenings es

new_ap_event_socket-ApOpens :
    (s : ApSettings) (u : ApStartup) (ds es : List Request)
    → ApOpens s u ds es
    → new_ap_event_socket s u ≡ opened ds
unfolding new_ap_event_socket
new_ap_event_socket-ApOpens s u ds es o = simp (
  new_ap_event_socket,
  open_socket-Waits is_shutdown s.socket_path u.event_bound u.event_happenings ds o.event_bound_is
      o.event_waits,
  o.attached_is,
)

module _ {C : Type 0} (m : Mpsc Request C) where
  start_ap-ApOpens :
      (s : ApSettings) (u : ApStartup) (ch : C) (ds es : List Request)
      → ApOpens s u ds es
      → start_ap m s u ch ≡ requeue m (ds ++ es) ch
  unfolding start_ap
  start_ap-ApOpens s u ch ds es o = simp (
    start_ap,
    new_ap_event_socket-ApOpens s u ds es o,
    open_socket-Waits is_shutdown s.socket_path u.bound u.happenings es o.bound_is o.waits,
  )

  -- With channels as documented: when both sockets have opened, with `ds` and then `es` put off, the
  -- daemon has taken the registration, and the channel holds no more than its capacity, the loop starts
  -- with these requests behind those that the channel held, in the order in which they came, exactly if
  -- the channel has room for all of them. If it has not, `run` hangs before its loop.
  pub start_ap-resend :
      (s : ApSettings) (u : ApStartup) (ch : C) (ds es : List Request)
      → IsMpsc m
      → ApOpens s u ds es
      → length (m.queue ch) ≤ m.capacity ch
      → Requeued m (ds ++ es) ch (start_ap m s u ch)
  start_ap-resend s u ch ds es laws o l =
      rw (start_ap-ApOpens s u ch ds es o) (requeue-Requeued m laws (ds ++ es) ch l)
