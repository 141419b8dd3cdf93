-- ===== src/Ap/Types/Lines.antt =====
-- What a configuration of src/ap/types.rs says, in terms of the lines of the response.
use mathlib.Core.Path.{subst}
use wifi_ctrl.Prelude.{
  [], ◌∷◌, Option, none, some, ok, >>=-eq-ok, map_err-eq-ok, ◌≡◌, ◌≢◌, List, refl, ◌∙◌, ◌⊎◌, inl,
  inr, arith, Bool-cases, Result-cases, true, false, ◌||◌,
}
use wifi_ctrl.Text.{Bytes, codes, bytes_eq, lines}
use wifi_ctrl.Text.Equal.{bytes_eq_iff}
use wifi_ctrl.Text.Number.{ℤ, pos, parse_signed}
use wifi_ctrl.Text.Trim.{trim}
use wifi_ctrl.Config.Escapes.{Escapes, unprintf-Escapes}
use wifi_ctrl.Text.Utf8.{IsUtf8}
use wifi_ctrl.Config.Unprintf.{unprintf}
use wifi_ctrl.Config.Table.{Table, parse_table, values_of}
use wifi_ctrl.Config.Collect.{Collects, parse_table-Collects}
use wifi_ctrl.Config.Deserialize.{
  only, only-eq-ok, deserialize_string, deserialize_signed, forward_to_from_str, deserialize_option,
}
use wifi_ctrl.Config.Struct.{entry, required, defaulted, optional, check_entries}
use wifi_ctrl.Ap.Types.{Config, config_fields, build_config, config_from_response}

-- One line of the response is of key `k`, not counting other keys' lines, and it says `a`.
abbrev pub Says : {A : Type 0} → Bytes → Bytes → (Bytes → A → Type 0) → A → Type 0
Says response k Means a = (v : Bytes) × Collects k 0 (lines (trim response)) (v ∷ []) × Means v a

-- The text without its escapes.
abbrev pub MeansText : Bytes → Bytes → Type 0
MeansText v s = Escapes v s × IsUtf8 s

-- No line of the response is of key `k`.
abbrev pub Silent : Bytes → Bytes → Type 0
Silent response k = Collects k 0 (lines (trim response)) []

values_of-entry :
    (k : Bytes) (t : Table)
    → ((entry k t ≡ none) × (values_of k t ≡ [])) ⊎ (entry k t ≡ some (values_of k t))
unfolding entry values_of
values_of-entry k [] = inl (refl, refl)
values_of-entry k (e ∷ t) = elim (Bool-cases (bytes_eq e.key k)) [
  | inl same ↦ inr (rw same refl)
  | inr other ↦ rw other (values_of-entry k t)
]

-- What an `Option` of text is of the key's lines: nothing with no line, nothing with one line that is
-- empty or says "N/A", and with one line that is neither its text.
abbrev pub OptionSaid : Bytes → Bytes → Option Bytes → Type 0
OptionSaid response k o =
    (Silent response k × (o ≡ none))
    ⊎ (Says response k (λ v _. (v ≡ []) ⊎ (v ≡ codes "N/A")) tt × (o ≡ none))
    ⊎ ((s : Bytes) × Says response k (λ v t. (v ≢ []) × (v ≢ codes "N/A") × MeansText v t) s
        × (o ≡ some s))

-- The configuration, field by field.
pub record SaidBy (response : Bytes) (c : Config) : Type 0 where
  pub bssid_said : Says response (codes "bssid") MeansText c.bssid
  pub ssid_said : Says response (codes "ssid") MeansText c.ssid
  pub wps_state_said : Says response (codes "wps_state") MeansText c.wps_state
  pub wpa_said :
      (Silent response (codes "wpa") × (c.wpa ≡ pos 0))
      ⊎ Says response (codes "wpa") (λ v n. parse_signed 31 v ≡ ok n) c.wpa
  pub key_mgmt_said : OptionSaid response (codes "key_mgmt") c.key_mgmt
  pub group_cipher_said : OptionSaid response (codes "group_cipher") c.group_cipher
  pub rsn_pairwise_cipher_said :
      OptionSaid response (codes "rsn_pairwise_cipher") c.rsn_pairwise_cipher
  pub wpa_pairwise_cipher_said :
      OptionSaid response (codes "wpa_pairwise_cipher") c.wpa_pairwise_cipher

blank_text :
    (v : Bytes) → (bytes_eq v [] || bytes_eq v (codes "N/A")) ≡ true → (v ≡ []) ⊎ (v ≡ codes "N/A")
blank_text v h = elim (Bool-cases (bytes_eq v [])) [
  | inl same ↦ inl ((bytes_eq_iff v []).0 same)
  | inr other ↦ inr ((bytes_eq_iff v (codes "N/A")).0 (rw other at h))
]

filled_text :
    (v : Bytes) → (bytes_eq v [] || bytes_eq v (codes "N/A")) ≡ false → (v ≢ []) × (v ≢ codes "N/A")
filled_text v h = (
  λ e. let same = (bytes_eq_iff v []).1 e in ground arith,
  λ e. let same = (bytes_eq_iff v (codes "N/A")).1 e in ground arith,
)

-- The text of the only line.
only_text :
    (vs : List Bytes) (v s : Bytes) → only vs ≡ ok v → deserialize_string vs ≡ ok s → MeansText v s
unfolding deserialize_string
only_text vs v s o h =
    let (v', o', u) = >>=-eq-ok (only vs) unprintf h in
    let same : v' ≡ v = cc in rw same at ((unprintf-Escapes v' s).0 u)

module _ (response : Bytes) (t : Table) (parsed : parse_table response ≡ ok t) where
  text_said :
      (k vs : _) (s : Bytes)
      → values_of k t ≡ vs
      → deserialize_string vs ≡ ok s
      → Says response k MeansText s
  unfolding deserialize_string
  text_said k vs s e h =
      let (v, o, u) = >>=-eq-ok (only vs) unprintf h in
      (
        v,
        rw (e ∙ only-eq-ok vs v o) at (parse_table-Collects response t k parsed),
        (unprintf-Escapes v s).0 u,
      )

  required_said :
      (k s : Bytes) → required k deserialize_string t ≡ ok s → Says response k MeansText s
  unfolding required
  required_said k s h = elim (values_of-entry k t) [
    | inl (e, _) ↦ let x = rw (e, required) at h in absurd cc
    | inr e ↦ text_said k (values_of k t) s refl (rw (e, required) at h)
  ]

  signed_said :
      (k : Bytes) (n : ℤ)
      → defaulted (pos 0) k (deserialize_signed 31) t ≡ ok n
      → (Silent response k × (n ≡ pos 0)) ⊎ Says response k (λ v n. parse_signed 31 v ≡ ok n) n
  unfolding defaulted deserialize_signed forward_to_from_str
  signed_said k n h = elim (values_of-entry k t) [
    | inl (e, q) ↦
        let same = rw (e, defaulted) at h in
        inl (rw q at (parse_table-Collects response t k parsed), ground (arith, same))
    | inr e ↦
        let (v, o, u) = >>=-eq-ok (only (values_of k t)) _ (rw (e, defaulted) at h) in
        inr (
          v,
          rw (only-eq-ok (values_of k t) v o) at (parse_table-Collects response t k parsed),
          map_err-eq-ok (parse_signed 31 v) _ u,
        )
  ]

  option_said :
      (k : Bytes) (o : Option Bytes)
      → optional k deserialize_string t ≡ ok o
      → OptionSaid response k o
  unfolding defaulted deserialize_option
  option_said k o h = elim (values_of-entry k t) [
    | inl (e, q) ↦
        let same = rw (e, defaulted) at h in
        inl (rw q at (parse_table-Collects response t k parsed), ground (arith, same))
    | inr e ↦
        let (v, one, u) = >>=-eq-ok (only (values_of k t)) _ (rw (e, defaulted) at h) in
        let line =
          rw (only-eq-ok (values_of k t) v one) at (parse_table-Collects response t k parsed) in
        elim (Bool-cases (bytes_eq v [] || bytes_eq v (codes "N/A"))) [
          | inl blank ↦ inr (
              inl ((v, line, blank_text v blank), let same = rw blank at u in ground (arith, same)))
          | inr filled ↦ elim (Result-cases (deserialize_string (values_of k t))) [
            | inl (s, p) ↦
                let same = rw (filled, p) at u in
                let (some_text, known) = filled_text v filled in
                inr (
                  inr (
                    s,
                    (v, line, (some_text, known, only_text (values_of k t) v s one p)),
                    ground (arith, same),
                  ))
            | inr (x, p) ↦ let same = rw (filled, p) at u in absurd cc
          ]
        ]
  ]

  build_config-SaidBy : (c : Config) → build_config t ≡ ok c → SaidBy response c
  unfolding build_config
  build_config-SaidBy c h0 =
      let (bssid, e1, h1) = >>=-eq-ok (required (codes "bssid") deserialize_string t) _ h0 in
      let (ssid, e2, h2) = >>=-eq-ok (required (codes "ssid") deserialize_string t) _ h1 in
      let (wps_state, e3, h3) =
        >>=-eq-ok (required (codes "wps_state") deserialize_string t) _ h2 in
      let (wpa, e4, h4) =
        >>=-eq-ok (defaulted (pos 0) (codes "wpa") (deserialize_signed 31) t) _ h3 in
      let (key_mgmt, e5, h5) = >>=-eq-ok (optional (codes "key_mgmt") deserialize_string t) _ h4 in
      let (group, e6, h6) = >>=-eq-ok (optional (codes "group_cipher") deserialize_string t) _ h5 in
      let (rsn, e7, h7) =
        >>=-eq-ok (optional (codes "rsn_pairwise_cipher") deserialize_string t) _ h6 in
      let (pairwise, e8, h8) =
        >>=-eq-ok (optional (codes "wpa_pairwise_cipher") deserialize_string t) _ h7 in
      let made : Config = record {
        bssid = bssid;
        ssid = ssid;
        wps_state = wps_state;
        wpa = wpa;
        key_mgmt = key_mgmt;
        group_cipher = group;
        rsn_pairwise_cipher = rsn;
        wpa_pairwise_cipher = pairwise;
      } in
      let same : made ≡ c = ground (arith, h8) in
      subst (SaidBy response) same (record {
        bssid_said = required_said (codes "bssid") bssid e1;
        ssid_said = required_said (codes "ssid") ssid e2;
        wps_state_said = required_said (codes "wps_state") wps_state e3;
        wpa_said = signed_said (codes "wpa") wpa e4;
        key_mgmt_said = option_said (codes "key_mgmt") key_mgmt e5;
        group_cipher_said = option_said (codes "group_cipher") group e6;
        rsn_pairwise_cipher_said = option_said (codes "rsn_pairwise_cipher") rsn e7;
        wpa_pairwise_cipher_said = option_said (codes "wpa_pairwise_cipher") pairwise e8;
      })

-- A configuration that was parsed, in whatever order the `HashMap` is iterated: the BSSID, the SSID and
-- the WPS state are each the text of the only line of their key, without its escapes. `wpa` is the 32-bit
-- number on the only line of its key, or 0 if there is none. A cipher or the key management is nothing
-- if its key has no line or one line that is empty or says "N/A", and else the text of the only line.
pub config_from_response-SaidBy :
    (order : Table → Table) (response : Bytes) (c : Config)
    → config_from_response order response ≡ ok c
    → SaidBy response c
unfolding config_from_response
config_from_response-SaidBy order response c h =
    let (t, parsed, h1) = >>=-eq-ok (parse_table response) _ h in
    let (u, _, h2) = >>=-eq-ok (check_entries config_fields (order t)) _ h1 in
    build_config-SaidBy response t parsed c h2
