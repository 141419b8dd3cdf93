-- ===== src/Socket/Frame.antt =====
-- What a request or a command leaves alone, and what it logs.
use wifi_ctrl.Prelude.{ℕ, Bool, List, [], ◌∷◌, ◌++◌, ◌≡◌, refl, arith}
use wifi_ctrl.Text.{Bytes}
use wifi_ctrl.Socket.World.{Window, readable, expired, broken, Peer, World}
use wifi_ctrl.Socket.Handle.{Parser, wait_reply, request, accepting, command_matching}

-- `w'` is `w` after one command.
pub record Sends {R B : Type 0} (cmd : Bytes) (w w' : World R B) : Type 0 where
  pub sent_is : w'.sent ≡ cmd ∷ w.sent
  pub answers_is : w'.answers ≡ w.answers
  pub broadcasts_is : w'.broadcasts ≡ w.broadcasts

module _ (n : ℕ) (peer : Peer) {R B : Type 0} where
  wait_reply-Sends :
      {T : Type 0} (parse : Parser T) (win : Window) (ds : List Bytes) (cmd : Bytes)
      (w w' : World R B)
      → Sends cmd w w'
      → Sends cmd w (wait_reply n peer parse win ds w').1
  unfolding wait_reply
  wait_reply-Sends parse readable (d ∷ ds) cmd w w' s = record {
    sent_is = s.sent_is;
    answers_is = s.answers_is;
    broadcasts_is = s.broadcasts_is;
  }
  wait_reply-Sends parse readable [] cmd w w' s = s
  wait_reply-Sends parse expired ds cmd w w' s = s
  wait_reply-Sends parse (broken e) ds cmd w w' s = s

  pub request-Sends :
      {T : Type 0} (req : Bytes) (parse : Parser T) (w : World R B)
      → Sends req w (request n peer req parse w).1
  unfolding request
  request-Sends req parse w =
      let e = peer (req ∷ w.sent) in
      let w' = record w { inbox = w.inbox ++ e.arrivals; window = e.window; sent = req ∷ w.sent } in
      let s : Sends req w w' = record { sent_is = refl; answers_is = refl; broadcasts_is = refl } in
      ground (arith, s, wait_reply-Sends parse e.window (w.inbox ++ e.arrivals) req w w' s)

  -- `command_matching` repeats the text of `request`.
  pub command_matching-request :
      (cmd : Bytes) (accept : Bytes → Bool)
      → command_matching n peer {R = R} {B = B} cmd accept
        ≡ request n peer {R = R} {B = B} cmd (accepting accept)
  unfolding command_matching request
  command_matching-request cmd accept = refl

  pub command_matching-Sends :
      (cmd : Bytes) (accept : Bytes → Bool) (w : World R B)
      → Sends cmd w (command_matching n peer cmd accept w).1
  command_matching-Sends cmd accept w =
      rw command_matching-request (request-Sends cmd (accepting accept) w)
