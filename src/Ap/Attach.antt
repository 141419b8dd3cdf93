-- ===== src/Ap/Attach.antt =====
-- `EventSocket::new` of src/ap/event_socket.rs behind the opening of its socket: the commands that
-- register for events, with a bounded number of attempts.
use wifi_ctrl.Prelude.{ℕ, zero, suc, List, [], ◌∷◌, ◌++◌, ok, err}
use wifi_ctrl.Text.{Bytes, codes}
use wifi_ctrl.Text.Utf8.{from_utf8_lossy}
use wifi_ctrl.Errors.{attach_failed}
use wifi_ctrl.Socket.World.{Peer, M, ◌>>=◌, ◌>>◌, pure, fail}
use wifi_ctrl.Socket.Handle.{command}

-- `for o in attach_options`.
unfoldable pub push_options : Bytes → List Bytes → Bytes
push_options cmd [] = cmd
push_options cmd (o ∷ options) = push_options ((cmd ++ b' ' ∷ []) ++ o) options

unfoldable pub attach_command : List Bytes → Bytes
attach_command options = push_options (codes "ATTACH") options

module _ (buffer_size : ℕ) (peer : Peer) {R B : Type 0} where
  unfoldable pub retry_command : Bytes → ℕ → M R B (Unit {0})
  retry_command cmd zero = fail (attach_failed (from_utf8_lossy cmd))
  retry_command cmd (suc retries) = do
    r ← command buffer_size peer cmd
    elim r [ ok u ↦ pure tt | err e ↦ retry_command cmd retries ]

  unfoldable pub attach : List Bytes → ℕ → M R B (Unit {0})
  attach options retries = do
    retry_command (attach_command options) retries
    retry_command (codes "LOG_LEVEL DEBUG") retries
