-- ===== src/Text/Equal.antt =====
-- `==` of two texts, and equality.
use wifi_ctrl.Prelude.{true, ◌∷◌, ◌≡◌, ◌↔◌, arith}
use wifi_ctrl.Text.{Bytes, bytes_eq}

pub bytes_eq_iff : (a b : Bytes) → (bytes_eq a b ≡ true) ↔ (a ≡ b)
unfolding bytes_eq
bytes_eq_iff (x ∷ a) (y ∷ b) = ground (arith, bytes_eq_iff a b)
bytes_eq_iff _ _ = ground arith
