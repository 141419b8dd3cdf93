-- ===== src/Sta/Life/Deferred.antt =====
-- The requests that `run` of src/sta/mod.rs has put off while a socket opens, by the channels that they
-- hold.
use wifi_ctrl.Prelude.{
  ℕ, ◌+◌, List, [], ◌∷◌, ◌++◌, some, count, count-append, ◌≡◌, ◌⊎◌, inl, inr, refl, arith,
  Bool-cases,
}
use wifi_ctrl.Text.{Bytes}
use wifi_ctrl.Errors.{ErrorKind, permission_denied, other_kind}
use wifi_ctrl.Socket.Open.{
  Happening, connects, refused, receives, deadline, Opening, opened, gave_up, opening, wait_open,
}
use wifi_ctrl.Sta.Client.{Request, is_shutdown}
use wifi_ctrl.Sta.Life.{IsOutside}
use wifi_ctrl.Sta.Station.Balance.{channel}
use wifi_ctrl.Sta.System.{brought}
use wifi_ctrl.Sta.System.Once.{count-brought-append}

pub count-brought-both :
    (c : ℕ) (ds es : List Request)
    → count c (brought (ds ++ es)) ≡ count c (brought ds) + count c (brought es)
count-brought-both c [] es = omega arith
count-brought-both c (d ∷ ds) es = omega (
  arith,
  count-append c (channel d) (brought (ds ++ es)),
  count-append c (channel d) (brought ds),
  count-brought-both c ds es,
)

-- Behind something that happened, what is put off holds channel `c` `k` times; a wait that has ended
-- with an error has dropped it.
abbrev pub Puts : ℕ → ℕ → Opening Request → Type 0
Puts c k (opened ds) = count c (brought ds) ≡ k
Puts c k (gave_up e) = Unit {0}
Puts c k (opening n ds) = count c (brought ds) ≡ k

kind-cases : (k : ErrorKind) → (k ≡ permission_denied) ⊎ (k ≡ other_kind)
kind-cases permission_denied = inl refl
kind-cases other_kind = inr refl

module _ (path : Bytes) (c : ℕ) (n : ℕ) (ds : List Request) where
  pub outside-Puts :
      (h : Happening Request)
      → IsOutside h
      → Puts c (count c (brought ds)) (wait_open is_shutdown path (h ∷ []) n ds)
  unfolding wait_open
  outside-Puts connects o = refl
  outside-Puts (refused e) o = elim (kind-cases e.kind) [
    | inl denied ↦ rw (denied, wait_open) tt
    | inr other ↦ rw (other, wait_open) refl
  ]
  outside-Puts (receives r) o = elim o [ ]
  outside-Puts deadline o = tt

  pub received-Puts :
      (r : Request)
      → Puts c
          (count c (brought ds) + count c (channel r))
          (wait_open is_shutdown path (receives (some r) ∷ []) n ds)
  unfolding wait_open
  received-Puts r = elim (Bool-cases (is_shutdown r)) [
    | inl stop ↦ rw (stop, wait_open) tt
    | inr other ↦ rw (other, wait_open) (count-brought-append c ds r)
  ]
