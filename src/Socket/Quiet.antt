-- ===== src/Socket/Quiet.antt =====
-- The operations of src/socket_handle.rs and the logs of answers and broadcasts.
use wifi_ctrl.Prelude.{ℕ, Bool, Result, ok, err, ◌≡◌, refl, ◌∙◌}
use wifi_ctrl.Text.{Bytes}
use wifi_ctrl.Errors.{SocketError}
use wifi_ctrl.Socket.World.{Peer, World, M, ◌>>=◌, then_with, pure}
use wifi_ctrl.Socket.Handle.{Parser, request, command_matching}
use wifi_ctrl.Socket.Frame.{request-Sends, command_matching-Sends}

-- The logs of answers and broadcasts stay as they are.
pub record SameLogs {R B : Type 0} (w w' : World R B) : Type 0 where
  pub answers_is : w'.answers ≡ w.answers
  pub broadcasts_is : w'.broadcasts ≡ w.broadcasts

module _ {R B : Type 0} where
  abbrev pub IsQuiet : {A : Type 0} → M R B A → Type 0
  IsQuiet m = (w : World R B) → SameLogs w (m w).1

  then_with-SameLogs :
      {A C : Type 0} (w : World R B) (x : Result SocketError A × World R B) (f : A → M R B C)
      → SameLogs w x.1
      → ((a : A) → IsQuiet (f a))
      → SameLogs w (then_with x f).1
  then_with-SameLogs w (ok a, w') f h q = record {
    answers_is = (q a w').answers_is ∙ h.answers_is;
    broadcasts_is = (q a w').broadcasts_is ∙ h.broadcasts_is;
  }
  then_with-SameLogs w (err e, w') f h q = h

  pub >>=-IsQuiet :
      {A C : Type 0} (m : M R B A) (f : A → M R B C)
      → IsQuiet m
      → ((a : A) → IsQuiet (f a))
      → IsQuiet (m >>= f)
  >>=-IsQuiet m f h q w = then_with-SameLogs w (m w) f (h w) q

  pub pure-IsQuiet : {A : Type 0} (a : A) → IsQuiet (pure a)
  pure-IsQuiet a w = record { answers_is = refl; broadcasts_is = refl }

  module _ (n : ℕ) (peer : Peer) where
    pub request-IsQuiet :
        {T : Type 0} (req : Bytes) (parse : Parser T) → IsQuiet (request n peer req parse)
    request-IsQuiet req parse w =
        let s = request-Sends n peer req parse w in
        record { answers_is = s.answers_is; broadcasts_is = s.broadcasts_is }

    pub command_matching-IsQuiet :
        (cmd : Bytes) (accept : Bytes → Bool) → IsQuiet (command_matching n peer cmd accept)
    command_matching-IsQuiet cmd accept w =
        let s = command_matching-Sends n peer cmd accept w in
        record { answers_is = s.answers_is; broadcasts_is = s.broadcasts_is }
