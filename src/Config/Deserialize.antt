-- ===== src/Config/Deserialize.antt =====
-- The `Deserializer` of src/config.rs: the values of one key, read at the type that serde asks for,
-- and the whole response as a map of strings.
use wifi_ctrl.Prelude.{
  Bool, true, false, ◌||◌, List, [], ◌∷◌, ◌++◌, Option, none, some, if◌then◌else◌, Result, ok, err,
  ◌>>=◌, map_ok, map_err, ℕ, ◌≡◌, arith,
}
use wifi_ctrl.Text.{Bytes, codes, bytes_eq}
use wifi_ctrl.Text.Char.{parse_char, describe_char}
use wifi_ctrl.Text.Number.{ℤ, parse_unsigned, parse_signed, describe}
use wifi_ctrl.Errors.{ConfigError, serde_error}
use wifi_ctrl.Config.Unprintf.{unprintf}
use wifi_ctrl.Config.Table.{Table, parse_table}

-- `only`.
unfoldable pub only : List Bytes → Result ConfigError Bytes
only [] = err (serde_error (codes "did not expect seq"))
only (s ∷ []) = ok s
only (s ∷ r ∷ rest) = err (serde_error (codes "did not expect seq"))

-- A value that `only` returns is the only one.
pub only-eq-ok : (vs : List Bytes) (v : Bytes) → only vs ≡ ok v → vs ≡ v ∷ []
unfolding only
only-eq-ok [] v h = cc
only-eq-ok (s ∷ []) v h = ground arith
only-eq-ok (s ∷ r ∷ rest) v h = cc

abbrev is_true : Bytes → Bool
is_true s =
    bytes_eq s (codes "true")
    || bytes_eq s (codes "TRUE")
    || bytes_eq s (codes "enabled")
    || bytes_eq s (codes "ENABLED")

abbrev is_false : Bytes → Bool
is_false s =
    bytes_eq s (codes "false")
    || bytes_eq s (codes "FALSE")
    || bytes_eq s (codes "disabled")
    || bytes_eq s (codes "DISABLED")

unfoldable pub deserialize_bool : List Bytes → Result ConfigError Bool
deserialize_bool input = do
  s ← only input
  if is_true s
      then ok true
      else if is_false s
      then ok false
      else err (serde_error (codes "Invalid bool " ++ s))

-- The methods that `forward_to_from_str!` makes, by the target's `FromStr` and the `Display` of its error.
unfoldable pub forward_to_from_str {ℓ κ} :
    {A : Type ℓ} {E : Type κ}
    → (Bytes → Result E A)
    → (E → Bytes)
    → List Bytes
    → Result ConfigError A
forward_to_from_str parse display_error input = do
  s ← only input
  map_err (λ e. serde_error (display_error e)) (parse s)

-- At an unsigned type with this largest value.
unfoldable pub deserialize_unsigned : ℕ → List Bytes → Result ConfigError ℕ
unfolding forward_to_from_str
deserialize_unsigned limit = forward_to_from_str (parse_unsigned limit) describe

-- At a signed type with this many bits beside the sign.
unfoldable pub deserialize_signed : ℕ → List Bytes → Result ConfigError ℤ
unfolding forward_to_from_str
deserialize_signed bits = forward_to_from_str (parse_signed bits) describe

-- At `char`, which is given as its UTF-8 bytes.
unfoldable pub deserialize_char : List Bytes → Result ConfigError Bytes
unfolding forward_to_from_str
deserialize_char = forward_to_from_str parse_char describe_char

unfoldable pub deserialize_string : List Bytes → Result ConfigError Bytes
deserialize_string input = do s ← only input; unprintf s

-- An empty value and "N/A" are `None`; `visit_some` reads the same input again.
unfoldable pub deserialize_option {ℓ} :
    {A : Type ℓ} → (List Bytes → Result ConfigError A) → List Bytes → Result ConfigError (Option A)
deserialize_option visit input = do
  s ← only input
  if bytes_eq s [] || bytes_eq s (codes "N/A") then ok none else map_ok some (visit input)

-- Each value becomes a deserializer of its own.
unfoldable pub deserialize_seq {ℓ} :
    {A : Type ℓ} → (List Bytes → Result ConfigError A) → List Bytes → Result ConfigError (List A)
deserialize_seq visit [] = ok []
deserialize_seq visit (s ∷ input) = do
  a ← visit (s ∷ [])
  as' ← deserialize_seq visit input
  ok (a ∷ as')

-- `HashMap<String, String>` from the entries: the keys as they stand, the values as strings.
unfoldable pub strings : Table → Result ConfigError (List (Bytes × Bytes))
strings [] = ok []
strings (e ∷ t) = do v ← deserialize_string e.values; rest ← strings t; ok ((e.key, v) ∷ rest)

-- `from_str::<HashMap<String, String>>`; `order` is the order in which the `HashMap` is iterated.
unfoldable pub from_str_map : (Table → Table) → Bytes → Result ConfigError (List (Bytes × Bytes))
from_str_map order s = do t ← parse_table s; strings (order t)

-- `map.get(key)`.
unfoldable pub get : Bytes → List (Bytes × Bytes) → Option Bytes
get k [] = none
get k ((j, v) ∷ m) = if bytes_eq j k then some v else get k m
