-- ===== src/Config/Struct.antt =====
-- `T::deserialize(MapDeserializer::new(map.into_iter()))` of src/config.rs at a struct: the fields that
-- serde derives, read from the entries in the order of the map, with the keys it does not know
-- ignored, and then the fields that are missing.
use wifi_ctrl.Prelude.{
  ℕ, List, [], ◌∷◌, ◌++◌, Option, none, some, if◌then◌else◌, Result, ok, err, ◌>>=◌, map_ok,
}
use wifi_ctrl.Text.{Bytes, codes, bytes_eq}
use wifi_ctrl.Errors.{ConfigError, serde_error}
use wifi_ctrl.Config.Table.{Entry, Table}
use wifi_ctrl.Config.Deserialize.{
  deserialize_unsigned, deserialize_signed, deserialize_string, deserialize_option, deserialize_seq,
}

-- The types of the fields: `u32` and `u64` by their largest value, `i32` by its bits beside the sign.
pub data FieldType : Type 0 where
  string_field option_string_field strings_field : FieldType
  unsigned_field option_unsigned_field unsigneds_field signed_field : ℕ → FieldType

abbrev pub Fields : Type 0
Fields = List (Bytes × FieldType)

abbrev checked {ℓ} : {A : Type ℓ} → Result ConfigError A → Result ConfigError (Unit {0})
checked r = map_ok (λ _. tt) r

-- Reading one value at its field's type.
unfoldable pub check_field : FieldType → List Bytes → Result ConfigError (Unit {0})
check_field string_field vs = checked (deserialize_string vs)
check_field option_string_field vs = checked (deserialize_option deserialize_string vs)
check_field strings_field vs = checked (deserialize_seq deserialize_string vs)
check_field (unsigned_field n) vs = checked (deserialize_unsigned n vs)
check_field (option_unsigned_field n) vs = checked (deserialize_option (deserialize_unsigned n) vs)
check_field (unsigneds_field n) vs = checked (deserialize_seq (deserialize_unsigned n) vs)
check_field (signed_field n) vs = checked (deserialize_signed n vs)

unfoldable pub field_type : Bytes → Fields → Option FieldType
field_type k [] = none
field_type k ((j, t) ∷ fields) = if bytes_eq j k then some t else field_type k fields

-- A key that is no field's is ignored by `deserialize_any`, which reads a string.
unfoldable pub check_entry : Fields → Entry → Result ConfigError (Unit {0})
unfolding check_field field_type
check_entry fields e = elim (field_type e.key fields) [
  | some t ↦ check_field t e.values
  | none ↦ checked (deserialize_string e.values)
]

unfoldable pub check_entries : Fields → Table → Result ConfigError (Unit {0})
unfolding check_entry
check_entries fields [] = ok tt
check_entries fields (e ∷ t) = do u ← check_entry fields e; check_entries fields t

-- The values of a key, if the map has it.
unfoldable pub entry : Bytes → Table → Option (List Bytes)
entry k [] = none
entry k (e ∷ t) = if bytes_eq e.key k then some e.values else entry k t

-- A field that must be there, one with a default, and an `Option`.
unfoldable pub required {ℓ} :
    {A : Type ℓ} → Bytes → (List Bytes → Result ConfigError A) → Table → Result ConfigError A
unfolding entry
required k visit t = elim (entry k t) [
  | some vs ↦ visit vs
  | none ↦ err (serde_error (codes "missing field `" ++ (k ++ codes "`")))
]

unfoldable pub defaulted {ℓ} :
    {A : Type ℓ} → A → Bytes → (List Bytes → Result ConfigError A) → Table → Result ConfigError A
unfolding entry
defaulted a k visit t = elim (entry k t) [ some vs ↦ visit vs | none ↦ ok a ]

abbrev pub optional {ℓ} :
    {A : Type ℓ}
    → Bytes
    → (List Bytes → Result ConfigError A)
    → Table
    → Result ConfigError (Option A)
optional k visit t = defaulted none k (deserialize_option visit) t
