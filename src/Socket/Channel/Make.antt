-- ===== src/Socket/Channel/Make.antt =====
-- The making of tokio's bounded channels, in src/sta/setup.rs and src/ap/setup.rs.
use wifi_ctrl.Prelude.{
  ℕ, ◌≤◌, ◌<◌, List, [], ◌++◌, Option, none, some, length, ◌≡◌, ◌⊎◌, inl, inr, ap, ◌∙◌, arith,
}
use wifi_ctrl.Socket.Channel.{Mpsc, Start, started, start_hangs}
use wifi_ctrl.Socket.Channel.Room.{Requeued}

-- `mpsc::channel` or `broadcast::Sender::new` at a capacity; `none` is a panic.
pub record Maker (C : Type 0) : Type 0 where
  pub limit : ℕ
  pub make : ℕ → Option C

-- What tokio's documentation says of both: they panic if the capacity is 0 or too large. `Fresh n` holds
-- of what is made with capacity `n`.
pub record IsMaker {C : Type 0} (Fresh : ℕ → C → Type 0) (k : Maker C) : Type 0 where
  pub make_some : (n : ℕ) → 1 ≤ n → n ≤ k.limit → (ch : C) × (k.make n ≡ some ch) × Fresh n ch
  pub make_zero : k.make 0 ≡ none
  pub make_large : (n : ℕ) → k.limit < n → k.make n ≡ none

-- A channel that holds nothing and has this capacity.
abbrev pub Empty : {S C : Type 0} → Mpsc S C → ℕ → C → Type 0
Empty m n ch = (m.queue ch ≡ []) × (m.capacity ch ≡ n)

module _ {S C : Type 0} (m : Mpsc S C) where
  -- A start with room for `n` requests and nothing in the channel, where `rs` were put off.
  abbrev pub StartsAt : ℕ → List S → Start C → Type 0
  StartsAt n rs x =
      ((length rs ≤ n) × (ch : C) × (x ≡ started ch) × (m.queue ch ≡ rs))
      ⊎ ((n < length rs) × (x ≡ start_hangs))

  pub Requeued-StartsAt :
      (n : ℕ) (rs : List S) (ch : C) (x : Start C)
      → Empty m n ch
      → Requeued m rs ch x
      → StartsAt n rs x
  Requeued-StartsAt n rs ch x (q, c) h =
      let none_held : length (m.queue ch) ≡ 0 = ap length q in
      elim h [
        | inl (l, ch', e, q') ↦
            inl (omega (arith, none_held, c, l), ch', e, q' ∙ ap (λ held. held ++ rs) q)
        | inr (l, e) ↦ inr (omega (arith, none_held, c, l), e)
      ]

  pub Empty-fits : (n : ℕ) (ch : C) → Empty m n ch → length (m.queue ch) ≤ m.capacity ch
  Empty-fits n ch (q, c) =
      let none_held : length (m.queue ch) ≡ 0 = ap length q in omega (arith, none_held)
