-- ===== src/Socket/World.antt =====
-- The state that a runner and its control socket share with the outside, and the monad of
-- operations on it that may end the runner with a `SocketError`.
use wifi_ctrl.Prelude.{ℕ, List, ◌∷◌, Result, ok, err}
use wifi_ctrl.Text.{Bytes}
use wifi_ctrl.Errors.{SocketError, IoError}

-- How the wait for one reply ends: a datagram is read if there is one, the timer goes off, or the
-- socket fails.
pub data Window : Type 0 where
  readable expired : Window
  broken : IoError → Window

-- What the daemon and the operating system do about one command: the result of `send`, the
-- datagrams that reach the socket up to the end of the wait, and the end of the wait.
pub record Exchange : Type 0 where
  pub written : Result IoError ℕ
  pub arrivals : List Bytes
  pub window : Window

-- The other end: what happens at a command, given all that was sent, the last command first.
abbrev pub Peer : Type 0
Peer = List Bytes → Exchange

-- `R` are the answers to clients and `B` the broadcasts. The logs have the newest entry first; an
-- answer stands with the number of the `oneshot` channel that it went to. `window` is the current
-- command's.
pub record World (R B : Type 0) : Type 0 where
  pub inbox : List Bytes
  pub window : Window
  pub sent : List Bytes
  pub answers : List (ℕ × R)
  pub broadcasts : List B

abbrev pub M : Type 0 → Type 0 → Type 0 → Type 0
M R B A = World R B → Result SocketError A × World R B

module _ {R B : Type 0} where
  abbrev pub then_with :
      {A C : Type 0}
      → Result SocketError A × World R B
      → (A → M R B C)
      → Result SocketError C × World R B
  then_with (ok a, w) f = f a w
  then_with (err e, w) f = (err e, w)

  infixl 5 ◌>>=◌ ◌>>◌
  abbrev pub ◌>>=◌ : {A C : Type 0} → M R B A → (A → M R B C) → M R B C
  ◌>>=◌ m f w = then_with (m w) f

  abbrev pub ◌>>◌ : {C : Type 0} → M R B (Unit {0}) → M R B C → M R B C
  m >> k = m >>= λ _. k

  abbrev pub pure : {A : Type 0} → A → M R B A
  pure a w = (ok a, w)

  abbrev pub fail : {A : Type 0} → SocketError → M R B A
  fail e w = (err e, w)

  -- `oneshot::Sender::send`; that the client may have gone is ignored by the code.
  abbrev pub answer : ℕ → R → M R B (Unit {0})
  answer c r w = (ok tt, record w { answers = (c, r) ∷ w.answers })

  -- `broadcast`; that nobody may listen is ignored by the code.
  abbrev pub broadcast : B → M R B (Unit {0})
  broadcast b w = (ok tt, record w { broadcasts = b ∷ w.broadcasts })
