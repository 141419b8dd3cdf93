-- ===== src/Sta/Scan/Sorted.antt =====
-- `vec_from_str` of src/sta/types.rs: which results a scan gives, and in what order.
use mathlib.Core.List.{Perm}
use wifi_ctrl.Prelude.{◌+◌, ◌≤◌, Bool, true, List, ok, ◌≡◌, refl, arith, ◌&&◌}
use wifi_ctrl.Prelude.Sorting.{
  IsOrder, IsSorted, picked, sort_by-perm, sort_by-IsSorted, sort_by-picked,
}
use wifi_ctrl.Text.{Bytes, lines, skip_one}
use wifi_ctrl.Text.Number.{ℤ, leb_ℤ, pos_part, neg_part}
use wifi_ctrl.Sta.Scan.Form.{Scanned, from_lines-Scanned}
use wifi_ctrl.Sta.Scan.{ScanResult, leb_signal, from_lines, sort_by_signal, vec_from_str}

abbrev pub Weaker : ScanResult → ScanResult → Type 0
Weaker a b = pos_part a.signal + neg_part b.signal ≤ pos_part b.signal + neg_part a.signal

-- The entries of one signal strength, in their order.
abbrev pub is_of_signal : ℤ → ScanResult → Bool
is_of_signal z x = leb_ℤ z x.signal && leb_ℤ x.signal z

abbrev pub of_signal : ℤ → List ScanResult → List ScanResult
of_signal z = picked (is_of_signal z)

signal-IsOrder : IsOrder leb_signal Weaker
signal-IsOrder = record {
  le_true = λ a b h. ground arith;
  le_false = λ a b h. ground arith;
  trans = λ a b c h l. omega arith;
}

same_signal :
    (z : ℤ) (a b : ScanResult)
    → is_of_signal z a ≡ true
    → is_of_signal z b ≡ true
    → leb_signal a b ≡ true
same_signal z a b h l = ground arith

-- `rs` are what the lines behind the first say that are of the form, in the order of their signals, and
-- those of the same signal in their own order.
pub record Scans (response : Bytes) (rs : List ScanResult) : Type 0 where
  pub found : List ScanResult
  pub scanned : Scanned (skip_one (lines response)) found
  pub sorted : IsSorted Weaker rs
  pub perm : Perm rs found
  pub stable : (z : ℤ) → of_signal z rs ≡ of_signal z found

-- A response never fails as a whole. Each line behind the first that is of the form of a scan's line (four
-- fields and an escaped name, with tabs between them) gives one result with these fields, and every
-- other line gives none, wherever it stands. The results are in the order of their signals, and those of
-- the same signal in the order of their lines.
pub vec_from_str-Scans :
    (response : Bytes)
    → (rs : List ScanResult) × (vec_from_str response ≡ ok rs) × Scans response rs
unfolding vec_from_str sort_by_signal
vec_from_str-Scans response =
    let rs = from_lines (skip_one (lines response)) in
    (
      sort_by_signal rs,
      refl,
      record {
        found = rs;
        scanned = from_lines-Scanned (skip_one (lines response));
        sorted = sort_by-IsSorted leb_signal Weaker signal-IsOrder rs;
        perm = sort_by-perm leb_signal rs;
        stable = λ z. sort_by-picked leb_signal (is_of_signal z) (same_signal z) rs;
      },
    )
