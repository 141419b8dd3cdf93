-- ===== src/Socket/Untold.antt =====
-- Operations on the socket's world that broadcast nothing.
use wifi_ctrl.Prelude.{ℕ, Result, ok, err, ◌≡◌, refl, ◌∙◌}
use wifi_ctrl.Errors.{SocketError}
use wifi_ctrl.Socket.Quiet.{IsQuiet}
use wifi_ctrl.Socket.World.{World, M, then_with, ◌>>=◌, pure, answer}

module _ {R B : Type 0} where
  abbrev pub IsUntold : {A : Type 0} → M R B A → Type 0
  IsUntold m = (w : World R B) → (m w).1.broadcasts ≡ w.broadcasts

  pub >>=-IsUntold :
      {A C : Type 0} (m : M R B A) (f : A → M R B C)
      → IsUntold m
      → ((a : A) → IsUntold (f a))
      → IsUntold (m >>= f)
  >>=-IsUntold {A} {C} m f h g w = go (m w) (h w)
    where
      go :
          (x : Result SocketError A × World R B)
          → x.1.broadcasts ≡ w.broadcasts
          → (then_with x f).1.broadcasts ≡ w.broadcasts
      go (ok a, v) e = g a v ∙ e
      go (err x, v) e = e

  -- What follows a quiet operation.
  pub quiet_then-IsUntold :
      {A C : Type 0} (m : M R B A) (f : A → M R B C)
      → IsQuiet m
      → ((a : A) → IsUntold (f a))
      → IsUntold (m >>= f)
  quiet_then-IsUntold m f q g = >>=-IsUntold m f (λ w. (q w).broadcasts_is) g

  -- An answer with what an operation returned.
  pub reply-IsUntold :
      {A : Type 0} (m : M R B A) (f : A → R) (c : ℕ)
      → IsQuiet m
      → IsUntold (m >>= λ a. answer c (f a))
  reply-IsUntold m f c q = quiet_then-IsUntold m _ q (λ a w. refl)

  pub reply_and-IsUntold :
      {A C : Type 0} (m : M R B A) (f : A → R) (c : ℕ) (p : C)
      → IsQuiet m
      → IsUntold (m >>= λ a. (answer c (f a) >>= λ _. pure p))
  reply_and-IsUntold m f c p q = quiet_then-IsUntold m _ q (λ a w. refl)
