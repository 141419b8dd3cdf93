-- ===== src/Examples/Listed.antt =====
-- The interfaces as the examples number them.
use mathlib.Core.List.{Perm}
use wifi_ctrl.Prelude.{
  ℕ, zero, suc, ◌≤◌, ◌<◌, ◌==◌, true, List, [], ◌∷◌, some, length, ◌≡◌, ◌≢◌, ◌⊎◌, inl, inr, refl,
  arith, List-cases,
}
use wifi_ctrl.Prelude.Sorting.{
  IsOrder, IsSorted, sort_by, picked, sort_by-perm, sort_by-IsSorted, sort_by-picked,
  length-sort_by,
}
use wifi_ctrl.Text.{Bytes}
use wifi_ctrl.Text.Trim.{trim}
use wifi_ctrl.Examples.{NetworkInterface, leb_index, get_elem?, accept}

abbrev pub Earlier : NetworkInterface → NetworkInterface → Type 0
Earlier a b = a.index ≤ b.index

-- `itf` is number `i` of the interfaces `l` in the order of their indices.
pub record Chosen (l : List NetworkInterface) (i : ℕ) (itf : NetworkInterface) : Type 0 where
  pub numbered : List NetworkInterface
  pub sorted : IsSorted Earlier numbered
  pub perm : Perm numbered l
  pub stable : (k : ℕ) → picked (λ x. x.index == k) numbered ≡ picked (λ x. x.index == k) l
  pub at : get_elem? numbered i ≡ some itf

index-IsOrder : IsOrder leb_index Earlier
index-IsOrder = record {
  le_true = λ a b h. ground arith;
  le_false = λ a b h. ground arith;
  trans = λ a b c h l. omega arith;
}

same_index :
    (k : ℕ) (a b : NetworkInterface)
    → (a.index == k) ≡ true
    → (b.index == k) ≡ true
    → leb_index a b ≡ true
same_index k a b h l = ground arith

get_elem?-some :
    {A : Type 0} (l : List A) (i : ℕ) → i < length l → (x : A) × (get_elem? l i ≡ some x)
get_elem?-some [] i h = absurd (omega arith)
get_elem?-some (x ∷ xs) zero h = (x, refl)
get_elem?-some (x ∷ xs) (suc i) h = get_elem?-some xs i (omega arith)

-- What the sort puts there.
pub sort_by-Chosen :
    (l : List NetworkInterface) (i : ℕ) (itf : NetworkInterface)
    → get_elem? (sort_by leb_index l) i ≡ some itf
    → Chosen l i itf
sort_by-Chosen l i itf e = record {
  numbered = sort_by leb_index l;
  sorted = sort_by-IsSorted leb_index Earlier index-IsOrder l;
  perm = sort_by-perm leb_index l;
  stable = λ k. sort_by-picked leb_index (λ x. x.index == k) (same_index k) l;
  at = e;
}

pub get_elem?-sort_by :
    (l : List NetworkInterface) (i : ℕ)
    → i < length l
    → (itf : NetworkInterface) × (get_elem? (sort_by leb_index l) i ≡ some itf)
get_elem?-sort_by l i h =
    let same = length-sort_by leb_index l in
    get_elem?-some (sort_by leb_index l) i (omega (arith, same))

-- The path that a program connects to: the second line without the white space around it, or, if nothing
-- is left, the proposed path.
abbrev pub PathFor : Bytes → Bytes → Bytes → Type 0
PathFor proposed_path user_input path =
    ((trim user_input ≡ []) × (path ≡ proposed_path))
    ⊎ ((trim user_input ≢ []) × (path ≡ trim user_input))

pub accept-PathFor :
    (proposed_path user_input : Bytes)
    → PathFor proposed_path user_input (accept proposed_path user_input)
unfolding accept
accept-PathFor proposed_path user_input = elim (List-cases (trim user_input)) [
  | inl e ↦ inl (e, rw (e, accept) refl)
  | inr (x, xs, e) ↦ inr (λ e'. cc, rw (e, accept) refl)
]
