-- ===== src/Config/Collect.antt =====
-- What `from_str` has collected when it has read its lines.
use wifi_ctrl.Prelude.{
  ◌+◌, ℕ, List, [], ◌∷◌, ◌++◌, if◌then◌else◌, ok, ◌>>=◌, >>=-eq-ok, length, length-append, ◌≡◌,
  refl, sym, ap, ◌∙◌, inl, inr, arith, Bool-cases, Result-cases,
}
use mathlib.Core.List.{append-nil, append_assoc}
use wifi_ctrl.Text.{Bytes, bytes_eq, lines}
use wifi_ctrl.Text.Trim.{trim}
use wifi_ctrl.Text.Equal.{bytes_eq_iff}
use wifi_ctrl.Config.Form.{LineOf, parse_line_iff}
use wifi_ctrl.Config.Table.{Line, Table, parse_line, push_value, fill, parse_table, values_of}

-- The value of a line if its key is `k`.
abbrev pub value_for : Bytes → Line → List Bytes
value_for k l = if bytes_eq l.key k then l.value ∷ [] else []

push_value-values_of :
    (l : Line) (t t' : Table) (k : Bytes)
    → push_value l t ≡ ok t'
    → values_of k t' ≡ values_of k t ++ value_for k l
unfolding push_value values_of
push_value-values_of l [] t' k h = ground arith
push_value-values_of l (e ∷ t) t' k h = elim (Result-cases (push_value l t)) [
  | inl (u, p) ↦ ground (
    arith,
    push_value-values_of l t u k p,
    bytes_eq_iff e.key k,
    bytes_eq_iff l.key k,
    bytes_eq_iff e.key l.key,
    append-nil e.values,
    append-nil (values_of k t),
  )
  | inr (x, p) ↦ ground (
    arith,
    bytes_eq_iff e.key k,
    bytes_eq_iff l.key k,
    bytes_eq_iff e.key l.key,
    append-nil e.values,
    append-nil (values_of k t),
  )
]

push_value-index :
    (l : Line) (t t' : Table) → push_value l t ≡ ok t' → length (values_of l.key t) ≡ l.index
unfolding push_value values_of
push_value-index l [] t' h = ground arith
push_value-index l (e ∷ t) t' h = elim (Result-cases (push_value l t)) [
  | inl (u, p) ↦ ground (arith, push_value-index l t u p)
  | inr (x, p) ↦ ground arith
]

-- A line of key `k` has the index `n`.
abbrev IndexIs : Bytes → ℕ → Line → Type 0
IndexIs k n l = l.key ≡ k → l.index ≡ n

-- Every line is of one of the forms, `vs` are the values of the lines of key `k` in their order, and these
-- lines are numbered from `n`.
pub data Collects (k : Bytes) : ℕ → List Bytes → List Bytes → Type 0 where
  stop : {n : ℕ} → Collects k n [] []
  read :
      {n m : ℕ} {line : Bytes} {rest us vs : List Bytes} (l : Line)
      → LineOf line l
      → IndexIs k n l
      → m ≡ n + length (value_for k l)
      → vs ≡ value_for k l ++ us
      → Collects k m rest us
      → Collects k n (line ∷ rest) vs

fill-Collects :
    (ls : List Bytes) (t t' : Table) (k : Bytes)
    → fill ls t ≡ ok t'
    → (vs : List Bytes) × Collects k (length (values_of k t)) ls vs
      × (values_of k t' ≡ values_of k t ++ vs)
unfolding fill
fill-Collects [] t t' k h = ([], stop, ground (arith, append-nil (values_of k t)))
fill-Collects (line ∷ rest) t t' k h =
    let (l, p, q) = >>=-eq-ok (parse_line line) (λ l. push_value l t >>= λ u. fill rest u) h in
    let (u, p', q') = >>=-eq-ok (push_value l t) (λ u. fill rest u) q in
    let (vs, c, e) = fill-Collects rest u t' k q' in
    let pushed = push_value-values_of l t u k p' in
    let grown : length (values_of k u) ≡ length (values_of k t) + length (value_for k l) =
      ap length pushed ∙ length-append (values_of k t) (value_for k l) in
    (
      value_for k l ++ vs,
      read l ((parse_line_iff line l).0 p)
          (λ same. sym (push_value-index l t u p') ∙ ap (λ j. length (values_of j t)) same) grown
          refl c,
      e ∙ ap (λ w. w ++ vs) pushed ∙ append_assoc (values_of k t) (value_for k l) vs,
    )

push_value_ok :
    (l : Line) (t : Table)
    → length (values_of l.key t) ≡ l.index
    → (u : Table) × (push_value l t ≡ ok u)
unfolding push_value values_of
push_value_ok l [] h = ((record { key = l.key; values = l.value ∷ [] }) ∷ [], ground arith)
push_value_ok l (e ∷ t) h = elim (Bool-cases (bytes_eq e.key l.key)) [
  | inl same ↦ ((record e { values = e.values ++ l.value ∷ [] }) ∷ t, ground arith)
  | inr other ↦ let (u, p) = push_value_ok l t (ground arith) in (e ∷ u, ground arith)
]

-- What the first line of a collection is, for any key.
first_line :
    {k : Bytes} {n : ℕ} {line : Bytes} {rest vs : List Bytes}
    → Collects k n (line ∷ rest) vs
    → (l : Line) × (parse_line line ≡ ok l)
first_line {line = line} (read l p i m v c) = (l, (parse_line_iff line l).1 p)

-- Behind a first line that reads as `l`.
rest_lines :
    {k : Bytes} {n : ℕ} {line : Bytes} {rest vs : List Bytes} (l : Line)
    → parse_line line ≡ ok l
    → Collects k n (line ∷ rest) vs
    → IndexIs k n l × (us : List Bytes) × Collects k (n + length (value_for k l)) rest us
rest_lines {k} {n} {line = line} {rest = rest} l p (read {us = us} l' q i m v c) =
    let p' = (parse_line_iff line l').1 q in
    let same : l' ≡ l = cc in (rw (← same) i, us, rw (← same) (rw (← m) c))

fill_ok :
    (ls : List Bytes) (t : Table)
    → ((k : Bytes) → (vs : List Bytes) × Collects k (length (values_of k t)) ls vs)
    → (u : Table) × (fill ls t ≡ ok u)
unfolding fill
fill_ok [] t all = (t, refl)
fill_ok (line ∷ rest) t all =
    let (l, p) = first_line (all []).1 in
    let (u, q) = push_value_ok l t (sym ((rest_lines l p (all l.key).1).0 refl)) in
    let (t', r) = fill_ok rest u (λ k.
      let (i, us, c) = rest_lines l p (all k).1 in
      (us, rw (push_value-values_of l t u k q, length-append (values_of k t) (value_for k l)) c)) in
    (t', rw (p, q) r)

-- A table that `from_str` returns holds for each key the values of its lines in their order; every
-- line was of the form `key=value`, which counts as index 0, or `key[index]=value`, and the lines of a
-- key were numbered 0, 1, 2 and so on.
pub parse_table-Collects :
    (s : Bytes) (t : Table) (k : Bytes)
    → parse_table s ≡ ok t
    → Collects k 0 (lines (trim s)) (values_of k t)
unfolding parse_table values_of
parse_table-Collects s t k h = let (vs, c, e) = fill-Collects (lines (trim s)) [] t k h in rw e c

-- If every line is of the form `key=value`, which counts as index 0, or `key[index]=value`, and the lines of
-- each key are numbered 0, 1, 2 and so on, `from_str` returns a table, which for each key holds the
-- values of its lines in their order.
pub parse_table_total :
    (s : Bytes)
    → ((k : Bytes) → (vs : List Bytes) × Collects k 0 (lines (trim s)) vs)
    → (t : Table) × (parse_table s ≡ ok t)
      × ((k : Bytes) → Collects k 0 (lines (trim s)) (values_of k t))
unfolding parse_table values_of
parse_table_total s all =
    let (t, h) = fill_ok (lines (trim s)) [] all in
    (t, h, λ k. unfold parse_table in parse_table-Collects s t k h)
