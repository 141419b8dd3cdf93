-- ===== src/Socket/Channel/Room.antt =====
-- Sending put-off requests to a channel with or without room for them.
use mathlib.Core.List.{append_assoc, append-nil}
use wifi_ctrl.Prelude.{
  ◌+◌, ◌≤◌, ◌<◌, List, [], ◌∷◌, ◌++◌, none, some, ◌≡◌, ◌⊎◌, inl, inr, refl, arith, length,
  length-append, ◌∙◌, ap, sym, Bool-cases, ltb,
}
use wifi_ctrl.Socket.Channel.{Mpsc, IsMpsc, resend, Start, started, start_hangs, requeue}

module _ {S C : Type 0} (m : Mpsc S C) where
  -- How a start ends that sends `rs` to `ch`: with all of them behind what the channel held, in order,
  -- exactly if it has room for all, and with a hang otherwise.
  abbrev pub Requeued : List S → C → Start C → Type 0
  Requeued rs ch x =
      ((length (m.queue ch) + length rs ≤ m.capacity ch)
        × (ch' : C) × (x ≡ started ch')
        × (m.queue ch' ≡ m.queue ch ++ rs))
      ⊎ ((m.capacity ch < length (m.queue ch) + length rs) × (x ≡ start_hangs))

  module _ (laws : IsMpsc m) where
    resend_fits :
        (rs : List S) (ch : C)
        → length (m.queue ch) + length rs ≤ m.capacity ch
        → (ch' : C) × (resend m rs ch ≡ some ch') × (m.queue ch' ≡ m.queue ch ++ rs)
    unfolding resend
    resend_fits [] ch h = (ch, refl, sym (append-nil (m.queue ch)))
    resend_fits (r ∷ rs) ch h =
        let (ch', sends, q, c) = laws.send_room r ch (omega arith) in
        let longer : length (m.queue ch') ≡ length (m.queue ch) + 1 =
          ap length q ∙ length-append (m.queue ch) (r ∷ []) in
        let (ch'', rest, q') = resend_fits rs ch' (omega (arith, longer, c)) in
        (
          ch'',
          rw (sends, resend) rest,
          q' ∙ ap (λ l. l ++ rs) q ∙ append_assoc (m.queue ch) (r ∷ []) rs,
        )

    resend_full :
        (rs : List S) (ch : C)
        → length (m.queue ch) ≤ m.capacity ch
        → m.capacity ch < length (m.queue ch) + length rs
        → resend m rs ch ≡ none
    unfolding resend
    resend_full [] ch l h = absurd (omega arith)
    resend_full (r ∷ rs) ch l h = elim (Bool-cases (ltb (length (m.queue ch)) (m.capacity ch))) [
      | inl room ↦
          let (ch', sends, q, c) = laws.send_room r ch (ground arith) in
          let longer : length (m.queue ch') ≡ length (m.queue ch) + 1 =
            ap length q ∙ length-append (m.queue ch) (r ∷ []) in
          rw (sends, resend)
            (resend_full rs ch' (ground (arith, longer, c)) (omega (arith, longer, c)))
      | inr full ↦ rw (laws.send_full r ch (ground arith), resend) refl
    ]

    pub requeue-Requeued :
        (rs : List S) (ch : C)
        → length (m.queue ch) ≤ m.capacity ch
        → Requeued rs ch (requeue m rs ch)
    unfolding requeue
    requeue-Requeued rs ch l =
        elim (Bool-cases (ltb (m.capacity ch) (length (m.queue ch) + length rs))) [
          | inl full ↦ inr (ground arith, rw (resend_full rs ch l (ground arith), requeue) refl)
          | inr fits ↦
              let enough : length (m.queue ch) + length rs ≤ m.capacity ch = ground arith in
              let (ch', sends, q) = resend_fits rs ch enough in
              inl (enough, ch', rw (sends, requeue) refl, q)
        ]

    -- A `send` that returns has put its value at the end.
    pub send-sent :
        (r : S) (ch ch' : C) → m.send r ch ≡ some ch' → m.queue ch' ≡ m.queue ch ++ r ∷ []
    send-sent r ch ch' h = elim (Bool-cases (ltb (length (m.queue ch)) (m.capacity ch))) [
      | inl room ↦
          let (sent, e, q, c) = laws.send_room r ch (ground arith) in
          let same : ch' ≡ sent = cc in rw same q
      | inr full ↦ let stuck = laws.send_full r ch (ground arith) in absurd cc
    ]
