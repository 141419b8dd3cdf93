-- ===== src/Sta/Start/Requeue.antt =====
-- `run` of src/sta/mod.rs: which requests are in the channel when the loop starts.
use wifi_ctrl.Prelude.{ℕ, ◌≤◌, List, ◌++◌, ok, ◌≡◌, length}
use wifi_ctrl.Text.{Bytes}
use wifi_ctrl.Socket.Channel.{Mpsc, IsMpsc, requeue}
use wifi_ctrl.Socket.Channel.Room.{Requeued, requeue-Requeued}
use wifi_ctrl.Socket.Open.{opened}
use wifi_ctrl.Socket.Waits.{Waits, open_socket-Waits}
use wifi_ctrl.Sta.Client.{Request, is_shutdown}
use wifi_ctrl.Sta.Start.{Startup, new_event_socket, start}

-- The sockets open, with these requests put off.
pub record Opens (u : Startup) (ds es : List Request) : Type 0 where
  pub bound_is : u.bound ≡ ok tt
  pub waits : Waits is_shutdown u.happenings ds
  pub event_bound_is : u.event_bound ≡ ok tt
  pub event_waits : Waits is_shutdown u.event_happenings es
  pub attached_is : (n : ℕ) × (u.attached ≡ ok n)

new_event_socket-Opens :
    (path : Bytes) (u : Startup) (ds es : List Request)
    → Opens u ds es
    → new_event_socket path u ≡ opened es
unfolding new_event_socket
new_event_socket-Opens path u ds es o = simp (
  new_event_socket,
  open_socket-Waits is_shutdown path u.event_bound u.event_happenings es o.event_bound_is
      o.event_waits,
  o.attached_is.1,
)

module _ {C : Type 0} (m : Mpsc Request C) where
  start-Opens :
      (path : Bytes) (u : Startup) (ch : C) (ds es : List Request)
      → Opens u ds es
      → start m path u ch ≡ requeue m (ds ++ es) ch
  unfolding start
  start-Opens path u ch ds es o = simp (
    start,
    open_socket-Waits is_shutdown path u.bound u.happenings ds o.bound_is o.waits,
    new_event_socket-Opens path u ds es o,
  )

  -- With channels as documented: when both sockets have opened, with `ds` and then `es` put off, and the
  -- channel holds no more than its capacity, the loop starts with these requests behind those that the
  -- channel held, in the order in which they came, exactly if the channel has room for all of them. If it
  -- has not, `run` hangs before its loop.
  pub start-resend :
      (path : Bytes) (u : Startup) (ch : C) (ds es : List Request)
      → IsMpsc m
      → Opens u ds es
      → length (m.queue ch) ≤ m.capacity ch
      → Requeued m (ds ++ es) ch (start m path u ch)
  start-resend path u ch ds es laws o l =
      rw (start-Opens path u ch ds es o) (requeue-Requeued m laws (ds ++ es) ch l)
