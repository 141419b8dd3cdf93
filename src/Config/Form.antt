-- ===== src/Config/Form.antt =====
-- The lines that `from_str` of src/config.rs can read.
use wifi_ctrl.Prelude.{
  ℕ, [], ◌∷◌, ◌++◌, ok, ◌≡◌, ◌↔◌, refl, inl, inr, Option-cases, map_err-eq-ok, Result-cases,
}
use wifi_ctrl.Text.{Bytes, split_once, rsplit_once}
use wifi_ctrl.Text.Number.{parse_unsigned, usize_max}
use wifi_ctrl.Text.Join.{Lacks}
use wifi_ctrl.Text.Splits.{
  split_once-append, split_once-Lacks, split_once-eq-none, split_once-eq-some, rsplit_once-end,
  rsplit_once-eq-some,
}
use wifi_ctrl.Text.Trim.{trim}
use wifi_ctrl.Config.Table.{Line, parse_line, parse_key, parse_index}

-- A line is `key=value`, with index 0, or `key[index]=value`. The key ends at the first `=`, and if
-- there is a `[` before that, at the first of these; it is taken without the white space around it.
pub data LineOf (line : Bytes) (l : Line) : Type 0 where
  plain :
      (key value : Bytes)
      → Lacks b'=' key
      → Lacks b'[' key
      → line ≡ key ++ b'=' ∷ value
      → l ≡ record { key = trim key; index = 0; value = value }
      → LineOf line l
  indexed :
      (key digits value : Bytes) (index : ℕ)
      → Lacks b'=' (key ++ b'[' ∷ (digits ++ b']' ∷ []))
      → Lacks b'[' key
      → parse_unsigned usize_max digits ≡ ok index
      → line ≡ (key ++ b'[' ∷ (digits ++ b']' ∷ [])) ++ b'=' ∷ value
      → l ≡ record { key = trim key; index = index; value = value }
      → LineOf line l

parse_index-eq-ok :
    (s : Bytes) (n : ℕ)
    → parse_index s ≡ ok n
    → (digits : Bytes) × (s ≡ digits ++ b']' ∷ []) × (parse_unsigned usize_max digits ≡ ok n)
unfolding parse_index
parse_index-eq-ok s n e = elim (Option-cases (rsplit_once b']' s)) [
  | inl missing ↦ let x = rw (missing, parse_index) at e in absurd cc
  | inr ((digits, []), found) ↦ (
    digits,
    rsplit_once-eq-some b']' s digits [] found,
    map_err-eq-ok _ _ (rw (found, parse_index) at e),
  )
  | inr ((digits, c ∷ cs), found) ↦ let x = rw (found, parse_index) at e in absurd cc
]

parse_index-digits :
    (digits : Bytes) (n : ℕ)
    → parse_unsigned usize_max digits ≡ ok n
    → parse_index (digits ++ b']' ∷ []) ≡ ok n
unfolding parse_index
parse_index-digits digits n e = rw (rsplit_once-end b']' digits, e, parse_index) refl

parse_key-LineOf :
    (line k v : Bytes) (l : Line)
    → Lacks b'=' k
    → line ≡ k ++ b'=' ∷ v
    → parse_key k v ≡ ok l
    → LineOf line l
unfolding parse_key
parse_key-LineOf line k v l lacks is e = elim (Option-cases (split_once b'[' k)) [
  | inl missing ↦
      plain k v lacks (split_once-eq-none b'[' k missing) is
        (let x = rw (missing, parse_key) at e in cc)
  | inr ((name, i), found) ↦
      let (whole, none_before) = split_once-eq-some b'[' k name i found in
      elim (Result-cases (parse_index i)) [
        | inl (n, good) ↦
            let (digits, closed, number) = parse_index-eq-ok i n good in
            let all_of_it = rw closed at whole in
            let x = rw (found, good, parse_key) at e in
            indexed name digits v n (rw all_of_it at lacks) none_before number (rw all_of_it at is)
              cc
        | inr (y, bad) ↦ let x = rw (found, bad, parse_key) at e in absurd cc
      ]
]

parse_line-LineOf : (line : Bytes) (l : Line) → parse_line line ≡ ok l → LineOf line l
unfolding parse_line
parse_line-LineOf line l e = elim (Option-cases (split_once b'=' line)) [
  | inl missing ↦ let x = rw (missing, parse_line) at e in absurd cc
  | inr ((k, v), found) ↦
      let (is, lacks) = split_once-eq-some b'=' line k v found in
      parse_key-LineOf line k v l lacks is (rw (found, parse_line) at e)
]

parse_key-plain :
    (k v : Bytes)
    → Lacks b'[' k
    → parse_key k v ≡ ok (record { key = trim k; index = 0; value = v })
unfolding parse_key
parse_key-plain k v lacks = rw (split_once-Lacks b'[' k lacks, parse_key) refl

parse_key-indexed :
    (k digits v : Bytes) (n : ℕ)
    → Lacks b'[' k
    → parse_unsigned usize_max digits ≡ ok n
    → parse_key (k ++ b'[' ∷ (digits ++ b']' ∷ [])) v
      ≡ ok (record { key = trim k; index = n; value = v })
unfolding parse_key
parse_key-indexed k digits v n lacks number =
    rw
      (
        split_once-append b'[' k (digits ++ b']' ∷ []) lacks,
        parse_index-digits digits n number,
        parse_key,
      )
      refl

LineOf-parse_line : (line : Bytes) (l : Line) → LineOf line l → parse_line line ≡ ok l
unfolding parse_line
LineOf-parse_line line l (plain k v lacks none_before is same) =
    rw (is, split_once-append b'=' k v lacks, same) (parse_key-plain k v none_before)
LineOf-parse_line line l (indexed k digits v n lacks none_before number is same) =
    rw (is, split_once-append b'=' (k ++ b'[' ∷ (digits ++ b']' ∷ [])) v lacks, same)
      (parse_key-indexed k digits v n none_before number)

-- A line is read exactly when it is of one of the two forms, `key=value` with no `[` in the key, which
-- counts as index 0, and `key[index]=value` with an index that fits `usize`: as that key without white
-- space around it, that index and that value.
pub parse_line_iff : (line : Bytes) (l : Line) → (parse_line line ≡ ok l) ↔ LineOf line l
parse_line_iff line l = (parse_line-LineOf line l, LineOf-parse_line line l)
