-- ===== src/Examples.antt =====
-- examples/wifi-sta.rs and examples/wifi-ap.rs: what both do before they use the crate.
pub mod Listed
pub mod Sta
pub mod Ap
pub mod QuickStart
use wifi_ctrl.Prelude.{ℕ, zero, suc, Bool, leb, List, [], ◌∷◌, Option, none, some, Result, ok, err}
use wifi_ctrl.Text.{Bytes}
use wifi_ctrl.Text.Trim.{trim}

-- What the examples read of `network_interface::NetworkInterface`.
pub record NetworkInterface : Type 0 where
  pub index : ℕ
  pub name : Bytes

-- The order of `sort_by_key(|itf| itf.index)`.
abbrev pub leb_index : NetworkInterface → NetworkInterface → Bool
leb_index a b = leb a.index b.index

-- `network_interfaces[i]`; `none` is a panic.
abbrev pub get_elem? {ℓ} : {A : Type ℓ} → List A → ℕ → Option A
get_elem? [] i = none
get_elem? (x ∷ xs) zero = some x
get_elem? (x ∷ xs) (suc i) = get_elem? xs i

-- The path that the second line accepts, or gives.
unfoldable pub accept : Bytes → Bytes → Bytes
accept proposed_path user_input = elim (trim user_input) [ [] ↦ proposed_path | x ∷ xs ↦ x ∷ xs ]

-- What the listener logs of what `recv` gives: it ends at the first error, also if that only says that it
-- has missed some.
unfoldable pub broadcast_listener : {E B : Type 0} → List (Result E B) → List B
broadcast_listener [] = []
broadcast_listener (err e ∷ rest) = []
broadcast_listener (ok broadcast ∷ rest) = broadcast ∷ broadcast_listener rest
