-- ===== src/Sta/Scan.antt =====
-- `ScanResult` of src/sta/types.rs.
pub mod Form
pub mod Sorted
use mathlib.Core.Option
use wifi_ctrl.Prelude.{
  ℕ, Bool, true, false, List, [], ◌∷◌, Option, none, some, if◌then◌else◌, to_option, Result, ok,
}
use wifi_ctrl.Prelude.Options.{◌>>=◌}
use wifi_ctrl.Prelude.Sorting.{sort_by}
use wifi_ctrl.Text.{Bytes, split_once, lines, skip_one}
use wifi_ctrl.Text.Number.{ℤ, leb_ℤ, parse_signed}
use wifi_ctrl.Errors.{ParseError}
use wifi_ctrl.Config.Unprintf.{unprintf}

pub record ScanResult : Type 0 where
  pub mac : Bytes
  pub frequency : Bytes
  pub signal : ℤ
  pub flags : Bytes
  pub name : Bytes

-- `isize` has 64 bits.
unfoldable pub from_line : Bytes → Option ScanResult
from_line line = do
  mac ← split_once b'\t' line
  frequency ← split_once b'\t' mac.1
  signal_text ← split_once b'\t' frequency.1
  signal ← to_option (parse_signed 63 signal_text.0)
  flags ← split_once b'\t' signal_text.1
  name ← to_option (unprintf flags.1)
  some (record {
    mac = mac.0;
    frequency = frequency.0;
    signal = signal;
    flags = flags.0;
    name = name;
  })

-- The loop over the lines: what cannot be parsed is skipped.
unfoldable pub from_lines : List Bytes → List ScanResult
from_lines [] = []
from_lines (line ∷ rest) = elim (from_line line) [
  | some r ↦ r ∷ from_lines rest
  | none ↦ from_lines rest
]

-- `sort_by_key(|a| a.signal)`.
abbrev pub leb_signal : ScanResult → ScanResult → Bool
leb_signal a b = leb_ℤ a.signal b.signal

unfoldable pub sort_by_signal : List ScanResult → List ScanResult
sort_by_signal = sort_by leb_signal

unfoldable pub vec_from_str : Bytes → Result ParseError (List ScanResult)
vec_from_str response = ok (sort_by_signal (from_lines (skip_one (lines response))))
