-- ===== src/Socket/Open.antt =====
-- `SocketHandle::open` of src/socket_handle.rs: waiting for the daemon's socket. What happens while
-- it waits is a list of events.
use wifi_ctrl.Prelude.{
  ℕ, ◌+◌, ◌-◌, ◌*◌, ◌/◌, ◌≤◌, Bool, true, false, List, [], ◌∷◌, ◌++◌, Option, none, some, leb,
  if◌then◌else◌, Result, ok, err, ◌≡◌, arith,
}
use wifi_ctrl.Text.{Bytes}
use wifi_ctrl.Errors.{
  permission_denied, other_kind, IoError, SocketError, startup_aborted, io, timeout_opening_socket,
  permission_denied_opening_socket,
}

abbrev pub retry_minutes : ℕ
retry_minutes = 5

-- The outcome of one `connect`, a message or the end of the request channel, and the end of the five
-- minutes. A failed `connect` is tried again after a second.
pub data Happening {ℓ} (S : Type ℓ) : Type ℓ where
  connects : Happening S
  refused : IoError → Happening S
  receives : Option S → Happening S
  deadline : Happening S

-- The socket is open and requests were put off; the runner gives up; or it still waits, after some
-- refusals.
pub data Opening {ℓ} (S : Type ℓ) : Type ℓ where
  opened : List S → Opening S
  gave_up : SocketError → Opening S
  opening : ℕ → List S → Opening S

-- `RETRY_MINUTES-(loop_count+1)/60`, which the log shows every 60 rounds; `none` is an underflow.
unfoldable pub minutes_left : ℕ → Option ℕ
minutes_left loop_count =
    let passed = (loop_count + 1) / 60 in
    if leb passed retry_minutes then some (retry_minutes - passed) else none

-- The subtraction does not underflow in the refusals that five minutes have room for, at one a second.
pub minutes_left_bounds :
    (loop_count : ℕ)
    → loop_count ≤ 60 * retry_minutes
    → (m : ℕ) × (minutes_left loop_count ≡ some m) × (m ≤ retry_minutes)
unfolding minutes_left
minutes_left_bounds loop_count h =
    (retry_minutes - (loop_count + 1) / 60, ground arith, omega arith)

module _ {ℓ} {S : Type ℓ} (is_shutdown : S → Bool) (path : Bytes) where
  -- Behind a refusal: a socket without permission ends the wait.
  unfoldable pub wait_open : List (Happening S) → ℕ → List S → Opening S
  wait_open [] loop_count deferred = opening loop_count deferred
  wait_open (connects ∷ rest) loop_count deferred = opened deferred
  wait_open (refused e ∷ rest) loop_count deferred = elim e.kind [
    | permission_denied ↦ gave_up (permission_denied_opening_socket path)
    | other_kind ↦ wait_open rest (loop_count + 1) deferred
  ]
  wait_open (receives none ∷ rest) loop_count deferred = wait_open rest loop_count deferred
  wait_open (receives (some r) ∷ rest) loop_count deferred = elim (is_shutdown r) [
    | true ↦ gave_up startup_aborted
    | false ↦ wait_open rest loop_count (deferred ++ r ∷ [])
  ]
  wait_open (deadline ∷ rest) loop_count deferred = gave_up (timeout_opening_socket path)

  -- `open`; `bound` is what making the temporary directory and binding a socket in it gives.
  unfoldable pub open_socket : Result IoError (Unit {0}) → List (Happening S) → Opening S
  open_socket (err e) happenings = gave_up (io e)
  open_socket (ok u) happenings = wait_open happenings 0 []
