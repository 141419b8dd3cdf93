-- ===== src/Tests/Bounded.antt =====
-- A bounded channel that is as tokio documents it.
use wifi_ctrl.Prelude.{
  ℕ, true, false, leb, ◌&&◌, List, [], ◌∷◌, ◌++◌, Option, none, some, ltb, if◌then◌else◌, length,
  ◌≡◌, refl, arith,
}
use wifi_ctrl.Socket.Channel.{Mpsc, IsMpsc}
use wifi_ctrl.Socket.Channel.Make.{Maker, IsMaker, Empty}

-- A capacity, and what is held.
abbrev pub Held : Type 0 → Type 0
Held S = ℕ × List S

abbrev take_oldest : {S : Type 0} → Held S → Option (S × Held S)
take_oldest (n, []) = none
take_oldest (n, r ∷ rs) = some (r, (n, rs))

abbrev pub bounded : (S : Type 0) → Mpsc S (Held S)
bounded S = record {
  capacity = λ ch. ch.0;
  queue = λ ch. ch.1;
  send = λ r ch. if ltb (length ch.1) ch.0 then some (ch.0, ch.1 ++ r ∷ []) else none;
  recv = take_oldest;
}

take_oldest_lem :
    {S : Type 0} (r : S) (ch ch' : Held S)
    → take_oldest ch ≡ some (r, ch')
    → (ch.1 ≡ r ∷ ch'.1) × (ch'.0 ≡ ch.0)
take_oldest_lem r (n, []) ch' h = cc
take_oldest_lem r (n, q ∷ qs) ch' h = (cc, cc)

pub bounded-IsMpsc : (S : Type 0) → IsMpsc (bounded S)
bounded-IsMpsc S = record {
  send_room = λ r ch h.
      let room : ltb (length ch.1) ch.0 ≡ true = ground arith in
      ((ch.0, ch.1 ++ r ∷ []), rw room refl, refl, refl);
  send_full = λ r ch h. let full : ltb (length ch.1) ch.0 ≡ false = ground arith in rw full refl;
  recv_oldest = take_oldest_lem;
}

-- Channels of up to 1000 places.
abbrev pub maker : (S : Type 0) → Maker (Held S)
maker S = record { limit = 1000; make = λ n. if leb 1 n && leb n 1000 then some (n, []) else none }

pub maker-IsMaker : (S : Type 0) → IsMaker (Empty (bounded S)) (maker S)
maker-IsMaker S = record {
  make_some = λ n h l.
      let room : (leb 1 n && leb n 1000) ≡ true = ground arith in
      ((n, []), rw room refl, (refl, refl));
  make_zero = refl;
  make_large =
      λ n h. let no_room : (leb 1 n && leb n 1000) ≡ false = ground arith in rw no_room refl;
}

-- Senders of which only the size is known.
abbrev pub senders : Maker ℕ
senders = record { limit = 1000; make = λ n. if leb 1 n && leb n 1000 then some n else none }

pub senders-IsMaker : IsMaker (λ k sender. Unit {0}) senders
senders-IsMaker = record {
  make_some =
      λ n h l. let room : (leb 1 n && leb n 1000) ≡ true = ground arith in (n, rw room refl, tt);
  make_zero = refl;
  make_large =
      λ n h. let no_room : (leb 1 n && leb n 1000) ≡ false = ground arith in rw no_room refl;
}
