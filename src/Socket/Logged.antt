-- ===== src/Socket/Logged.antt =====
-- What an operation on the socket's world puts into one of the logs, in order.
use mathlib.Core.List.{append_assoc, append-nil}
use wifi_ctrl.Prelude.{onto, onto-append, List, [], ◌++◌, Result, ok, err, ◌≡◌, refl, sym, ap, ◌∙◌}
use wifi_ctrl.Errors.{SocketError}
use wifi_ctrl.Socket.World.{World, M, then_with, pure}

module _ {R B X : Type 0} (entries : World R B → List X) where
  -- Behind an operation with the entries `cs`, each is in the log once, in their order. A socket error
  -- stops this behind some of them.
  abbrev pub Logged : {A : Type 0} → List X → List X → Result SocketError A × World R B → Type 0
  Logged cs log (ok a, w) = entries w ≡ onto cs log
  Logged cs log (err e, w) =
      (ds : List X) × (es : List X) × (cs ≡ ds ++ es) × (entries w ≡ onto ds log)

  -- Behind what logged `cs`, an operation that logs `ds`.
  Logged-append :
      {A : Type 0} (cs ds log : List X) (w : World R B)
      → entries w ≡ onto cs log
      → (x : Result SocketError A × World R B) → Logged ds (entries w) x
      → Logged (cs ++ ds) log x
  Logged-append cs ds log w h (ok a, w') s = s ∙ ap (onto ds) h ∙ sym (onto-append cs ds log)
  Logged-append cs ds log w h (err e, w') (fs, gs, split_at, s) = (
    cs ++ fs,
    gs,
    ap (λ l. cs ++ l) split_at ∙ sym (append_assoc cs fs gs),
    s ∙ ap (onto fs) h ∙ sym (onto-append cs fs log),
  )

  pub then_with-Logged :
      {A C : Type 0} (cs ds log : List X) (x : Result SocketError A × World R B) (f : A → M R B C)
      → Logged cs log x
      → ((a : A) (w : World R B) → Logged ds (entries w) (f a w))
      → Logged (cs ++ ds) log (then_with x f)
  then_with-Logged cs ds log (ok a, w) f s h = Logged-append cs ds log w s (f a w) (h a w)
  then_with-Logged cs ds log (err e, w) f (fs, gs, split_at, s) h =
      (fs, gs ++ ds, ap (λ l. l ++ ds) split_at ∙ append_assoc fs gs ds, s)

  -- An operation that has logged all of `cs`, however it ends.
  pub Logged-all :
      {A : Type 0} (cs log : List X) (x : Result SocketError A × World R B)
      → entries x.1 ≡ onto cs log
      → Logged cs log x
  Logged-all cs log (ok a, w') e = e
  Logged-all cs log (err x, w') e = (cs, [], sym (append-nil cs), e)

-- A value that is returned goes on.
pub then_with-pure :
    {R B A C D : Type 0} (x : Result SocketError A × World R B) (g : A → C) (f : C → M R B D)
    → then_with (then_with x (λ a. pure (g a))) f ≡ then_with x (λ a. f (g a))
then_with-pure (ok a, w) g f = refl
then_with-pure (err e, w) g f = refl
