-- ===== src/Socket/Channel.antt =====
-- Sending the requests that were put off back to the request channel, in `run` of src/sta/mod.rs and of
-- src/ap/mod.rs, and the interface of tokio's bounded `mpsc` channels.
pub mod Make
pub mod Oneshot
pub mod Room
use wifi_ctrl.Prelude.{ℕ, ◌≤◌, ◌<◌, List, [], ◌∷◌, ◌++◌, Option, none, some, length, ◌≡◌}
use wifi_ctrl.Errors.{SocketError}

-- Channels of `S`: the capacity, what is held, the oldest first, `send` while nothing is received, and
-- `recv`; `none` is a call that does not return.
pub record Mpsc (S C : Type 0) : Type 0 where
  pub capacity : C → ℕ
  pub queue : C → List S
  pub send : S → C → Option C
  pub recv : C → Option (S × C)

-- What tokio's documentation says: with room the value is put at the end, a full channel makes `send`
-- wait until something is received, and values are received in the order in which they were sent.
pub record IsMpsc {S C : Type 0} (m : Mpsc S C) : Type 0 where
  pub send_room :
      (r : S) (ch : C)
      → length (m.queue ch) < m.capacity ch
      → (ch' : C) × (m.send r ch ≡ some ch')
        × (m.queue ch' ≡ m.queue ch ++ r ∷ [])
        × (m.capacity ch' ≡ m.capacity ch)
  pub send_full : (r : S) (ch : C) → m.capacity ch ≤ length (m.queue ch) → m.send r ch ≡ none
  pub recv_oldest :
      (r : S) (ch ch' : C)
      → m.recv ch ≡ some (r, ch')
      → (m.queue ch ≡ r ∷ m.queue ch') × (m.capacity ch' ≡ m.capacity ch)

-- And `recv` returns as soon as something is held.
pub record Receives {S C : Type 0} (m : Mpsc S C) : Type 0 where
  pub recv_some :
      (r : S) (rs : List S) (ch : C) → m.queue ch ≡ r ∷ rs → (x : S × C) × (m.recv ch ≡ some x)

-- The loop begins with this channel; `run` returns an error; it still waits for a socket; or it hangs.
pub data Start (C : Type 0) : Type 0 where
  started : C → Start C
  start_failed : SocketError → Start C
  start_waits start_hangs : Start C

module _ {S C : Type 0} (m : Mpsc S C) where
  -- `self_sender.send(request).await` for each request. The task that sends is the only receiver.
  unfoldable pub resend : List S → C → Option C
  resend [] ch = some ch
  resend (r ∷ rs) ch = elim (m.send r ch) [ some ch' ↦ resend rs ch' | none ↦ none ]

  unfoldable pub requeue : List S → C → Start C
  requeue rs ch = elim (resend rs ch) [ some ch' ↦ started ch' | none ↦ start_hangs ]
