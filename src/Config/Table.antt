-- ===== src/Config/Table.antt =====
-- `from_str` of src/config.rs: the lines of a response, collected by key. The table is the
-- `HashMap`, as a list in the order of first insertion.
use wifi_ctrl.Prelude.{
  ℕ, List, [], ◌∷◌, ◌++◌, none, some, ◌==◌, if◌then◌else◌, Result, ok, err, ◌>>=◌, map_ok, map_err,
  ok_or, length,
}
use wifi_ctrl.Text.{Bytes, codes, bytes_eq, split_once, rsplit_once, lines}
use wifi_ctrl.Text.Trim.{trim}
use wifi_ctrl.Text.Number.{parse_unsigned, usize_max, describe}
use wifi_ctrl.Errors.{ConfigError, missing_delimiter_equal, serde_error}

-- A key with the values pushed to its `Deserializer`.
pub record Entry : Type 0 where
  pub key : Bytes
  pub values : List Bytes

abbrev pub Table : Type 0
Table = List Entry

-- A line `key[index]=value`, or `key=value` with index 0.
pub record Line : Type 0 where
  pub key : Bytes
  pub index : ℕ
  pub value : Bytes

-- What stands behind `[`: a number, and `]` as the last byte.
unfoldable pub parse_index : Bytes → Result ConfigError ℕ
parse_index s = elim (rsplit_once b']' s) [
  | some (i, []) ↦ map_err (λ e. serde_error (describe e)) (parse_unsigned usize_max i)
  | _ ↦ err (serde_error (codes "invalid key"))
]

unfoldable pub parse_key : Bytes → Bytes → Result ConfigError Line
unfolding parse_index
parse_key k v = elim (split_once b'[' k) [
  | some (name, i) ↦ map_ok (λ n. record { key = trim name; index = n; value = v }) (parse_index i)
  | none ↦ ok (record { key = trim k; index = 0; value = v })
]

unfoldable pub parse_line : Bytes → Result ConfigError Line
unfolding parse_key
parse_line line = do kv ← ok_or (split_once b'=' line) missing_delimiter_equal; parse_key kv.0 kv.1

abbrev pub duplicate_key : ConfigError
duplicate_key = serde_error (codes "Duplicate key")

-- `map.entry(key).or_default()`, the test of the index, and the push.
unfoldable pub push_value : Line → Table → Result ConfigError Table
push_value l [] =
    if 0 == l.index
    then ok ((record { key = l.key; values = l.value ∷ [] }) ∷ [])
    else err duplicate_key
push_value l (e ∷ t) =
    let rest = push_value l t in
    if bytes_eq e.key l.key
    then (if length e.values == l.index
        then ok ((record e { values = e.values ++ l.value ∷ [] }) ∷ t)
        else err duplicate_key)
    else map_ok (λ t'. e ∷ t') rest

-- The loop over the lines.
unfoldable pub fill : List Bytes → Table → Result ConfigError Table
fill [] t = ok t
fill (line ∷ rest) t = do l ← parse_line line; t' ← push_value l t; fill rest t'

unfoldable pub parse_table : Bytes → Result ConfigError Table
parse_table s = fill (lines (trim s)) []

-- `map.get(key)`, with no value for a key that is not there.
unfoldable pub values_of : Bytes → Table → List Bytes
values_of k [] = []
values_of k (e ∷ t) = if bytes_eq e.key k then e.values else values_of k t
