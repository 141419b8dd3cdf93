-- ===== src/Prelude/Bags.antt =====
-- Lists of numbers up to their order.
use Prim.Native.Nat.{ℕ, ◌≤◌}
use mathlib.Core.Path.{◌≡◌}
use mathlib.Core.List.{List, ◌++◌}
use mathlib.Core.Quot
use mathlib.Core.Quot.{Quot, Quot-set}
use native.Mathlib.Nat.{ℕ_set}
use native.Mathlib.Omega.{arith}
use wifi_ctrl.Prelude.Lists.{count, count-append}

abbrev pub Reordered : List ℕ → List ℕ → Type 0
Reordered front back = (n : ℕ) → count n front ≡ count n back

abbrev pub Bag : Type 0
Bag = Quot Reordered

abbrev pub bag : List ℕ → Bag
bag = Quot.mk

pub bag-Reordered : {front back : List ℕ} → Reordered front back → bag front ≡ bag back
bag-Reordered same = Quot.sound same

-- How often a number is in a bag.
unfoldable pub times : ℕ → Bag → ℕ
times n = Quot.lift ℕ_set (count n) (λ front back same. same n)

-- The numbers of a list and those of a bag.
unfoldable pub joined : List ℕ → Bag → Bag
joined more =
    Quot.lift Quot-set (λ l. bag (more ++ l))
      (λ front back same.
        Quot.sound
          (λ n. omega (arith, same n, count-append n more front, count-append n more back)))

infix 4 ◌⊑◌
abbrev pub ◌⊑◌ : Bag → Bag → Type 0
x ⊑ y = (n : ℕ) → times n x ≤ times n y
