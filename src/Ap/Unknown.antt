-- ===== src/Ap/Unknown.antt =====
-- `from_response` of src/ap/types.rs: what an indexed key that no field has does to a response.
use wifi_ctrl.Prelude.{
  ◌≤◌, List, [], ◌∷◌, none, ok, err, length, ◌≡◌, refl, inl, inr, arith, Bool-cases, Result-cases,
}
use wifi_ctrl.Text.{Bytes, bytes_eq}
use wifi_ctrl.Text.Equal.{bytes_eq_iff}
use wifi_ctrl.Errors.{ConfigError}
use wifi_ctrl.Config.Table.{Entry, Table, parse_table, values_of}
use wifi_ctrl.Config.Deserialize.{only, deserialize_string}
use wifi_ctrl.Config.Struct.{Fields, field_type, check_entry, check_entries}
use wifi_ctrl.Sta.Status.Lookup.{IsOrder}
use wifi_ctrl.Ap.Types.{status_fields, config_fields, status_from_response, config_from_response}

deserialize_string-many :
    (vs : List Bytes) → 2 ≤ length vs → (x : ConfigError) × (deserialize_string vs ≡ err x)
unfolding deserialize_string only
deserialize_string-many [] h = absurd (omega arith)
deserialize_string-many (v ∷ []) h = absurd (omega arith)
deserialize_string-many (v ∷ u ∷ vs) h = (_, refl)

check_entry-unknown :
    (fields : Fields) (e : Entry)
    → field_type e.key fields ≡ none
    → 2 ≤ length e.values
    → (x : ConfigError) × (check_entry fields e ≡ err x)
unfolding check_entry
check_entry-unknown fields e h l =
    let (x, p) = deserialize_string-many e.values l in (x, rw (check_entry, h, p) refl)

check_entries-unknown :
    (fields : Fields) (t : Table) (k : Bytes)
    → field_type k fields ≡ none
    → 2 ≤ length (values_of k t)
    → (x : ConfigError) × (check_entries fields t ≡ err x)
unfolding check_entries values_of
check_entries-unknown fields [] k h l = absurd (omega arith)
check_entries-unknown fields (e ∷ t) k h l = elim (Result-cases (check_entry fields e)) [
  | inr (x, p) ↦ (x, rw p refl)
  | inl (u, p) ↦ elim (Bool-cases (bytes_eq e.key k)) [
    | inl same ↦
        let is : e.key ≡ k = (bytes_eq_iff e.key k).0 same in
        let (x, q) = check_entry-unknown fields e (rw is h) (rw same at l) in absurd cc
    | inr other ↦ let (x, q) = check_entries-unknown fields t k h (rw other at l) in (x, rw p q)
  ]
]

-- A response that holds two or more values for a key, which is then an indexed key, is refused as a
-- whole if neither the status nor the configuration knows the key, for any order in which the `HashMap`
-- is iterated.
pub from_response-unknown :
    (order : Table → Table) (response : Bytes) (t : Table) (k : Bytes)
    → IsOrder order
    → parse_table response ≡ ok t
    → 2 ≤ length (values_of k t)
    → field_type k status_fields ≡ none
    → field_type k config_fields ≡ none
    → ((x : ConfigError) × (status_from_response order response ≡ err x))
      × ((x : ConfigError) × (config_from_response order response ≡ err x))
unfolding status_from_response config_from_response
from_response-unknown order response t k keeps p l not_status not_config =
    let longer : 2 ≤ length (values_of k (order t)) = rw (keeps t k) l in
    let (x, q) = check_entries-unknown status_fields (order t) k not_status longer in
    let (y, r) = check_entries-unknown config_fields (order t) k not_config longer in
    ((x, rw (p, q) refl), (y, rw (p, r) refl))
