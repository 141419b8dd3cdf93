-- ===== src/Sta/Status/Lookup.antt =====
-- What a status says about a key, in terms of the lines of the response.
use wifi_ctrl.Prelude.{
  List, [], ◌∷◌, Option, none, some, ok, ◌>>=◌, >>=-eq-ok, ◌≡◌, refl, ap, sym, ◌∙◌, ◌⊎◌, inl, inr,
  arith, Bool-cases, Result-cases,
}
use wifi_ctrl.Text.{Bytes, bytes_eq, lines}
use wifi_ctrl.Text.Trim.{trim}
use wifi_ctrl.Config.Unprintf.{unprintf}
use wifi_ctrl.Config.Table.{Table, parse_table, values_of}
use wifi_ctrl.Config.Collect.{Collects, parse_table-Collects}
use wifi_ctrl.Config.Deserialize.{only, only-eq-ok, deserialize_string, strings, from_str_map, get}
use wifi_ctrl.Sta.Status.{Status, parse_status}

-- The values of a key, and what the map has for it: nothing, or the text of the only value.
abbrev pub Reads : List Bytes → Option Bytes → Type 0
Reads vs o =
    ((vs ≡ []) × (o ≡ none))
    ⊎ ((v : Bytes) × (u : Bytes) × (vs ≡ v ∷ []) × (unprintf v ≡ ok u) × (o ≡ some u))

strings-Reads :
    (t : Table) (m : List (Bytes × Bytes)) (k : Bytes)
    → strings t ≡ ok m
    → Reads (values_of k t) (get k m)
unfolding strings deserialize_string values_of get
strings-Reads [] m k h = inl (refl, ground arith)
strings-Reads (e ∷ t) m k h =
    let (u, p, q) =
      >>=-eq-ok (deserialize_string e.values) (λ v. strings t >>= λ rest. ok ((e.key, v) ∷ rest))
        h in
    let (rest, p', q') = >>=-eq-ok (strings t) (λ rest. ok ((e.key, u) ∷ rest)) q in
    let (v, r, x) = >>=-eq-ok (only e.values) unprintf p in
    let made : (e.key, u) ∷ rest ≡ m = ground (arith, q') in
    let ih = strings-Reads t rest k p' in
    elim (Bool-cases (bytes_eq e.key k)) [
      | inl same ↦
          rw same (inr (v, u, only-eq-ok e.values v r, x, ap (get k) (sym made) ∙ rw same refl))
      | inr other ↦ rw other (elim ih [
        | inl (a, b) ↦ inl (a, ap (get k) (sym made) ∙ rw other b)
        | inr (v', u', a, b, c) ↦ inr (v', u', a, b, ap (get k) (sym made) ∙ rw other c)
      ])
    ]

-- `order` only changes the order in which the keys are visited.
abbrev pub IsOrder : (Table → Table) → Type 0
IsOrder order = (t : Table) (k : Bytes) → values_of k (order t) ≡ values_of k t

parse_status-raw :
    (order : Table → Table) (response : Bytes) (status : Status)
    → parse_status order response ≡ ok status
    → from_str_map order response ≡ ok status.raw
unfolding parse_status
parse_status-raw order response status h = elim (Result-cases (from_str_map order response)) [
  | inl (m, p) ↦ p ∙ ground (arith, p)
  | inr (e, p) ↦ ground (arith, p)
]

-- In a status that was parsed, for any order in which the `HashMap` is iterated: the raw map has
-- nothing for a key that no line names, and for a key that lines name there is one such line, and
-- the map has that line's value without its escapes.
pub parse_status-Reads :
    (order : Table → Table) (response : Bytes) (status : Status) (k : Bytes)
    → IsOrder order
    → parse_status order response ≡ ok status
    → (vs : List Bytes) × Collects k 0 (lines (trim response)) vs × Reads vs (get k status.raw)
unfolding from_str_map
parse_status-Reads order response status k keeps h =
    let (t, p, q) =
      >>=-eq-ok (parse_table response) (λ t. strings (order t))
        (parse_status-raw order response status h) in
    (
      values_of k t,
      parse_table-Collects response t k p,
      rw (keeps t k) at (strings-Reads (order t) status.raw k q),
    )
