-- ===== src/Socket/Gives.antt =====
-- What an operation on the socket's world adds to the answers, and what it returns.
use mathlib.Core.List.{append_assoc}
use wifi_ctrl.Prelude.{
  ℕ, List, [], ◌∷◌, ◌++◌, Result, ok, err, All, All-append, ◌≡◌, refl, sym, ap, ◌∙◌,
}
use wifi_ctrl.Errors.{SocketError}
use wifi_ctrl.Socket.World.{World, M, then_with, ◌>>=◌, pure, answer, broadcast}
use wifi_ctrl.Socket.Quiet.{IsQuiet}

-- What holds of a value that is returned.
abbrev pub Post : {A : Type 0} → (A → Type 0) → Result SocketError A → Type 0
Post Q (ok a) = Q a
Post Q (err e) = Unit

Post-Unit : {A : Type 0} (r : Result SocketError A) → Post (λ _. Unit) r
Post-Unit (ok a) = tt
Post-Unit (err e) = tt

module _ {R B : Type 0} (P : ℕ → R → Type 0) where
  -- The answers behind an operation are new ones, for which `P` holds, and those before it.
  abbrev pub Added : World R B → World R B → Type 0
  Added w w' = (new : List (ℕ × R)) × (w'.answers ≡ new ++ w.answers) × All (λ a. P a.0 a.1) new

  abbrev pub Gives : {A : Type 0} → (A → Type 0) → M R B A → Type 0
  Gives Q m = (w : World R B) → Added w (m w).1 × Post Q (m w).0

  Added-trans : (u v w : World R B) → Added u v → Added v w → Added u w
  Added-trans u v w (new, e, h) (more, e', h') = (
    more ++ new,
    e' ∙ ap (λ l. more ++ l) e ∙ sym (append_assoc more new u.answers),
    All-append (λ a. P a.0 a.1) more new h' h,
  )

  pub pure-Gives : {A : Type 0} (Q : A → Type 0) (a : A) → Q a → Gives Q (pure a)
  pure-Gives Q a q w = (([], refl, tt), q)

  pub answer-Gives : (c : ℕ) (r : R) → P c r → Gives (λ _. Unit) (answer c r)
  answer-Gives c r h w = (((c, r) ∷ [], refl, (h, tt)), tt)

  pub broadcast-Gives : (b : B) → Gives (λ _. Unit) (broadcast b)
  broadcast-Gives b w = (([], refl, tt), tt)

  pub quiet-Gives : {A : Type 0} (m : M R B A) → IsQuiet m → Gives (λ _. Unit) m
  quiet-Gives m q w = (([], (q w).answers_is, tt), Post-Unit (m w).0)

  pub >>=-Gives :
      {A C : Type 0} (Q : A → Type 0) (Q' : C → Type 0) (m : M R B A) (f : A → M R B C)
      → Gives Q m
      → ((a : A) → Q a → Gives Q' (f a))
      → Gives Q' (m >>= f)
  >>=-Gives {A} {C} Q Q' m f g h w = go (m w) (g w)
    where
      go :
          (x : Result SocketError A × World R B)
          → Added w x.1 × Post Q x.0
          → Added w (then_with x f).1 × Post Q' (then_with x f).0
      go (ok a, v) (d, q) = let (d', q') = h a q v in (Added-trans w v (f a v).1 d d', q')
      go (err e, v) (d, q) = (d, tt)
