-- ===== src/Ap/Retries.antt =====
-- `retry_command` of src/ap/event_socket.rs: how often a command is sent, and how that ends.
use wifi_ctrl.Prelude.{
  ℕ, zero, suc, ◌≤◌, List, [], ◌∷◌, ◌++◌, Result, ok, err, ◌≡◌, ◌⊎◌, inl, inr, Bool-cases, map_err,
  if◌then◌else◌, ◌==◌, length, refl, ap, ◌∙◌, arith,
}
use wifi_ctrl.Text.{Bytes}
use wifi_ctrl.Text.Utf8.{from_utf8_lossy}
use wifi_ctrl.Errors.{
  SocketError, IoError, io, attach_failed, ClientError, did_not_write_all_bytes, ClientResult,
}
use wifi_ctrl.Socket.World.{
  Window, readable, expired, broken, Exchange, Peer, World, then_with, pure,
}
use wifi_ctrl.Socket.Handle.{
  Parser, accepting, send, wait_reply, receive, command_matching, command, is_ok,
}
use wifi_ctrl.Socket.Frame.{command_matching-Sends}
use wifi_ctrl.Ap.Attach.{retry_command}

-- The same command as often as this, sent before `log`.
abbrev pub resent : Bytes → ℕ → List Bytes → List Bytes
resent cmd zero log = log
resent cmd (suc k) log = resent cmd k (cmd ∷ log)

-- The only error that ends the runner here is the socket's.
abbrev IsIo : {T R B : Type 0} → Result SocketError T × World R B → Type 0
IsIo (ok a, w) = Unit
IsIo (err e, w) = (i : IoError) × (e ≡ io i)

module _ (n : ℕ) (peer : Peer) {R B : Type 0} where
  wait_reply-IsIo :
      {T : Type 0} (parse : Parser T) (win : Window) (ds : List Bytes) (w : World R B)
      → IsIo (wait_reply n peer parse win ds w)
  unfolding wait_reply
  wait_reply-IsIo parse readable (d ∷ ds) w = tt
  wait_reply-IsIo parse readable [] w = tt
  wait_reply-IsIo parse expired ds w = tt
  wait_reply-IsIo parse (broken e) ds w = (e, refl)

  command-IsIo : (cmd : Bytes) (w : World R B) → IsIo (command n peer cmd w)
  unfolding command_matching send
  command-IsIo cmd w = go (peer (cmd ∷ w.sent)).written
    where
      e : Exchange
      e = peer (cmd ∷ w.sent)

      w' : World R B
      w' = record w { inbox = w.inbox ++ e.arrivals; window = e.window; sent = cmd ∷ w.sent }

      go :
          (r : Result IoError ℕ)
          → IsIo (
              then_with
                (map_err io r, w')
                (λ k.
                  if k == length cmd
                  then receive n peer (accepting is_ok)
                  else pure (err (did_not_write_all_bytes k (length cmd)))))
      go (ok k) = elim (Bool-cases (k == length cmd)) [
        | inl all' ↦ rw all' (wait_reply-IsIo (accepting is_ok) e.window (w.inbox ++ e.arrivals) w')
        | inr some' ↦ rw some' tt
      ]
      go (err i) = (i, refl)

  -- How one attempt leaves the log of commands.
  command-sent : (cmd : Bytes) (w : World R B) → (command n peer cmd w).1.sent ≡ cmd ∷ w.sent
  command-sent cmd w = (command_matching-Sends n peer cmd is_ok w).sent_is

  -- From one world to another by so many attempts, none of which was accepted.
  pub data Refused (cmd : Bytes) : ℕ → World R B → World R B → Type 0 where
    none_yet : {w : World R B} → Refused cmd 0 w w
    again :
        {k : ℕ} {w w' w'' : World R B} (e : ClientError)
        → command n peer cmd w ≡ (ok (err e), w')
        → Refused cmd k w' w''
        → Refused cmd (suc k) w w''

  -- How at most `retries` attempts end, with the number of attempts.
  abbrev pub Ended : Bytes → ℕ → World R B → Result SocketError (Unit {0}) × World R B → ℕ → Type 0
  Ended cmd retries w (r, w') k =
      -- The last was accepted, and those before were not.
      ((j : ℕ) × (k ≡ suc j)
        × (u : World R B) × Refused cmd j w u
        × (command n peer cmd u ≡ (ok (ok tt), w'))
        × (r ≡ ok tt))
      -- All were made, and none was accepted.
      ⊎ ((k ≡ retries) × Refused cmd retries w w' × (r ≡ err (attach_failed (from_utf8_lossy cmd))))
      -- The socket failed at the last, and those before were not accepted.
      ⊎ ((j : ℕ) × (k ≡ suc j)
          × (u : World R B) × Refused cmd j w u
          × (i : IoError) × (command n peer cmd u ≡ (err (io i), w'))
          × (r ≡ err (io i)))

  abbrev Attempts : Bytes → ℕ → World R B → Result SocketError (Unit {0}) × World R B → Type 0
  Attempts cmd retries w x =
      (k : ℕ) × (k ≤ retries) × (x.1.sent ≡ resent cmd k w.sent) × Ended cmd retries w x k

  -- One attempt more in front, which was not accepted.
  Attempts-suc :
      (cmd : Bytes) (retries : ℕ) (w w' : World R B) (x : Result SocketError (Unit {0}) × World R B)
      (e : ClientError)
      → command n peer cmd w ≡ (ok (err e), w')
      → w'.sent ≡ cmd ∷ w.sent
      → Attempts cmd retries w' x
      → Attempts cmd (suc retries) w x
  Attempts-suc cmd retries w w' x e c h (k, l, s, inl (j, q, u, before, last_one, r)) = (
    suc k,
    omega arith,
    s ∙ ap (resent cmd k) h,
    inl (suc j, ap suc q, u, again e c before, last_one, r),
  )
  Attempts-suc cmd retries w w' x e c h (k, l, s, inr (inl (q, before, r))) =
      (suc k, omega arith, s ∙ ap (resent cmd k) h, inr (inl (ap suc q, again e c before, r)))
  Attempts-suc cmd retries w w' x e c h (k, l, s, inr (inr (j, q, u, before, i, last_one, r))) = (
    suc k,
    omega arith,
    s ∙ ap (resent cmd k) h,
    inr (inr (suc j, ap suc q, u, again e c before, i, last_one, r)),
  )

  -- The command is sent as often as there were attempts, and nothing else is sent. It ends well exactly
  -- behind an attempt that was accepted, with no attempt behind it and none accepted before; with
  -- `AttachFailed` behind `retries` attempts none of which was accepted; or with the error of the socket
  -- at the last attempt, behind attempts that were not accepted.
  pub retry_command-Ended :
      (cmd : Bytes) (retries : ℕ) (w : World R B)
      → (k : ℕ) × (k ≤ retries)
        × ((retry_command n peer cmd retries w).1.sent ≡ resent cmd k w.sent)
        × Ended cmd retries w (retry_command n peer cmd retries w) k
  unfolding retry_command
  retry_command-Ended cmd zero w = (0, omega arith, refl, inr (inl (refl, none_yet, refl)))
  retry_command-Ended cmd (suc retries) w =
      go (command n peer cmd w) refl (command-sent cmd w) (command-IsIo cmd w)
        (λ w'. retry_command-Ended cmd retries w')
    where
      go :
          (x : Result SocketError (ClientResult (Unit {0})) × World R B)
          → command n peer cmd w ≡ x
          → x.1.sent ≡ cmd ∷ w.sent
          → IsIo x
          → ((w' : World R B) → Attempts cmd retries w' (retry_command n peer cmd retries w'))
          → Attempts cmd
              (suc retries)
              w
              (then_with x (elim [ ok u ↦ pure tt | err e ↦ retry_command n peer cmd retries ]))
      go (ok (ok u), w') c h _ ih = (1, omega arith, h, inl (0, refl, w, none_yet, c, refl))
      go (ok (err e), w') c h _ ih =
          Attempts-suc cmd retries w w' (retry_command n peer cmd retries w') e c h (ih w')
      go (err e, w') c h io' ih =
          (1, omega arith, h, inr (inr (0, refl, w, none_yet, io'.0, rw (← io'.1) c, ap err io'.1)))
