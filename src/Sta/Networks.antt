-- ===== src/Sta/Networks.antt =====
-- `NetworkResult::request_results` of src/sta/types.rs.
use wifi_ctrl.Prelude.{ℕ, List, [], ◌∷◌, ◌++◌, Option, none, some, ok, err, map_err}
use wifi_ctrl.Text.{Bytes, codes, split, skip_one}
use wifi_ctrl.Text.Number.{parse_unsigned, usize_max, to_decimal}
use wifi_ctrl.Text.Trim.{trim_matches, split_whitespace}
use wifi_ctrl.Errors.{ClientResult, parse_config}
use wifi_ctrl.Config.Unprintf.{unprintf}
use wifi_ctrl.Socket.World.{Peer, M, ◌>>=◌, pure}
use wifi_ctrl.Socket.Handle.{Parser, request}
use wifi_ctrl.Sta.Client.{NetworkResult}

unfoldable pub parse_get_network : Parser Bytes
parse_get_network resp = map_err parse_config (unprintf (trim_matches b'"' resp))

-- `TryInto::try_into` from a text to a `String`, which cannot fail.
abbrev pub as_text : Parser Bytes
as_text = ok

-- `iter.last()`.
abbrev pub last : List Bytes → Option Bytes
last [] = none
last (x ∷ []) = some x
last (x ∷ y ∷ r) = last (y ∷ r)

-- `format!("GET_NETWORK {network_id} ssid")`.
abbrev pub get_network : ℕ → Bytes
get_network id = codes "GET_NETWORK " ++ (to_decimal id ++ codes " ssid")

-- What is pushed for one network.
abbrev pub with_flags : ℕ → Bytes → Option Bytes → List NetworkResult
with_flags id ssid none = []
with_flags id ssid (some flags) = (record { network_id = id; ssid = ssid; flags = flags }) ∷ []

module _ (buffer_size : ℕ) (peer : Peer) {R B : Type 0} where
  -- The loop over the lines behind the first.
  unfoldable pub request_ssids :
      List Bytes → List NetworkResult → M R B (ClientResult (List NetworkResult))
  request_ssids [] results = pure (ok results)
  request_ssids (line ∷ rest) results = elim (split_whitespace line) [
    | [] ↦ request_ssids rest results
    | id ∷ fields ↦ elim (parse_unsigned usize_max id) [
      | err e ↦ request_ssids rest results
      | ok network_id ↦ do
        r ← request buffer_size peer (get_network network_id) parse_get_network
        elim r [
          | err e ↦ pure (err e)
          | ok ssid ↦ request_ssids rest (results ++ with_flags network_id ssid (last fields))
        ]
    ]
  ]

  unfoldable pub request_results : M R B (ClientResult (List NetworkResult))
  request_results = do
    r ← request buffer_size peer (codes "LIST_NETWORKS") as_text
    elim r [
      | err e ↦ pure (err e)
      | ok response ↦ request_ssids (skip_one (split b'\n' response)) []
    ]
