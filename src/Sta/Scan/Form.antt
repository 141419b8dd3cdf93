-- ===== src/Sta/Scan/Form.antt =====
-- The lines of a scan that `from_line` of src/sta/types.rs can parse.
use wifi_ctrl.Prelude.{
  List, [], ◌∷◌, ◌++◌, some, to_option, ok, ◌≡◌, ◌↔◌, refl, ap, ◌∙◌, inl, inr, arith, Option-cases,
}
use wifi_ctrl.Prelude.Options.{>>=-eq-some, to_option-eq-some}
use mathlib.Core.Path.{subst}
use wifi_ctrl.Text.{Bytes, split_once}
use wifi_ctrl.Text.Join.{Lacks}
use wifi_ctrl.Text.Number.{parse_signed}
use wifi_ctrl.Text.Splits.{split_once-append, split_once-eq-some}
use wifi_ctrl.Text.Utf8.{IsUtf8}
use wifi_ctrl.Config.Escapes.{Escapes, unprintf-Escapes}
use wifi_ctrl.Config.Unprintf.{unprintf}
use wifi_ctrl.Sta.Scan.{ScanResult, from_line, from_lines}

-- Five fields with tabs between them: the BSSID, the frequency, the signal as a number of 64 bits, the
-- flags, and the name with its escapes, which may itself hold tabs.
pub record IsScan (line : Bytes) (r : ScanResult) : Type 0 where
  pub signal_text : Bytes
  pub escaped_name : Bytes
  pub line_is :
      line
      ≡ r.mac
        ++ b'\t'
          ∷ (r.frequency ++ b'\t' ∷ (signal_text ++ b'\t' ∷ (r.flags ++ b'\t' ∷ escaped_name)))
  pub mac_lacks : Lacks b'\t' r.mac
  pub frequency_lacks : Lacks b'\t' r.frequency
  pub signal_lacks : Lacks b'\t' signal_text
  pub flags_lacks : Lacks b'\t' r.flags
  pub signal_is : parse_signed 63 signal_text ≡ ok r.signal
  pub name_is : Escapes escaped_name r.name × IsUtf8 r.name

IsScan-from_line : (line : Bytes) (r : ScanResult) → IsScan line r → from_line line ≡ some r
unfolding from_line
IsScan-from_line line r s =
    rw
      (
        s.line_is,
        split_once-append b'\t' r.mac _ s.mac_lacks,
        split_once-append b'\t' r.frequency _ s.frequency_lacks,
        split_once-append b'\t' s.signal_text _ s.signal_lacks,
        s.signal_is,
        split_once-append b'\t' r.flags _ s.flags_lacks,
        (unprintf-Escapes s.escaped_name r.name).1 s.name_is,
        from_line,
      )
      refl

from_line-IsScan : (line : Bytes) (r : ScanResult) → from_line line ≡ some r → IsScan line r
unfolding from_line
from_line-IsScan line r e =
    let (mac, c1, e1) = >>=-eq-some (split_once b'\t' line) _ e in
    let (frequency, c2, e2) = >>=-eq-some (split_once b'\t' mac.1) _ e1 in
    let (signal_text, c3, e3) = >>=-eq-some (split_once b'\t' frequency.1) _ e2 in
    let (signal, c4, e4) = >>=-eq-some (to_option (parse_signed 63 signal_text.0)) _ e3 in
    let (flags, c5, e5) = >>=-eq-some (split_once b'\t' signal_text.1) _ e4 in
    let (name, c6, e6) = >>=-eq-some (to_option (unprintf flags.1)) _ e5 in
    let (i1, l1) = split_once-eq-some b'\t' line mac.0 mac.1 c1 in
    let (i2, l2) = split_once-eq-some b'\t' mac.1 frequency.0 frequency.1 c2 in
    let (i3, l3) = split_once-eq-some b'\t' frequency.1 signal_text.0 signal_text.1 c3 in
    let (i5, l5) = split_once-eq-some b'\t' signal_text.1 flags.0 flags.1 c5 in
    let made : ScanResult = record {
      mac = mac.0;
      frequency = frequency.0;
      signal = signal;
      flags = flags.0;
      name = name;
    } in
    let same : made ≡ r = ground (arith, e6) in
    subst (IsScan line) same (record {
      signal_text = signal_text.0;
      escaped_name = flags.1;
      line_is =
          i1
          ∙ ap (λ x. mac.0 ++ b'\t' ∷ x)
              (i2
                ∙ ap (λ x. frequency.0 ++ b'\t' ∷ x)
                    (i3 ∙ ap (λ x. signal_text.0 ++ b'\t' ∷ x) i5));
      mac_lacks = l1;
      frequency_lacks = l2;
      signal_lacks = l3;
      flags_lacks = l5;
      signal_is = to_option-eq-some (parse_signed 63 signal_text.0) c4;
      name_is = (unprintf-Escapes flags.1 name).0 (to_option-eq-some (unprintf flags.1) c6);
    })

-- `from_line` gives a result exactly when the line is four fields and an escaped name, with tabs between
-- them, and the third field is a signed number of 64 bits: the one with these fields, and the name
-- without its escapes.
pub from_line_iff : (line : Bytes) (r : ScanResult) → (from_line line ≡ some r) ↔ IsScan line r
from_line_iff line r = (from_line-IsScan line r, IsScan-from_line line r)

-- The results of the lines, in order: each line that is of the form gives what it says, and every other
-- line gives nothing.
pub data Scanned : List Bytes → List ScanResult → Type 0 where
  stop : Scanned [] []
  kept :
      {line : Bytes} {r : ScanResult} {ls : List Bytes} {rs : List ScanResult}
      → IsScan line r
      → Scanned ls rs
      → Scanned (line ∷ ls) (r ∷ rs)
  skipped :
      {line : Bytes} {ls : List Bytes} {rs : List ScanResult}
      → ((r : ScanResult) → IsScan line r → ⊥)
      → Scanned ls rs
      → Scanned (line ∷ ls) rs

pub from_lines-Scanned : (ls : List Bytes) → Scanned ls (from_lines ls)
unfolding from_lines
from_lines-Scanned [] = stop
from_lines-Scanned (line ∷ ls) = elim (Option-cases (from_line line)) [
  | inl odd ↦
      rw (odd, from_lines)
        (skipped (λ r s. let found = IsScan-from_line line r s in cc) (from_lines-Scanned ls))
  | inr (r, found) ↦
      rw (found, from_lines) (kept (from_line-IsScan line r found) (from_lines-Scanned ls))
]
