-- ===== src/Sta/Station/Quiet.antt =====
-- `request_results` of src/sta/types.rs and the logs of answers and broadcasts.
use wifi_ctrl.Prelude.{ℕ, List, [], ◌∷◌, ◌++◌, ok, err, inl, inr, Result-cases, List-cases}
use wifi_ctrl.Text.{Bytes, codes, split, skip_one}
use wifi_ctrl.Text.Number.{parse_unsigned, usize_max}
use wifi_ctrl.Text.Trim.{split_whitespace}
use wifi_ctrl.Errors.{ClientResult}
use wifi_ctrl.Socket.World.{Peer}
use wifi_ctrl.Socket.Handle.{request}
use wifi_ctrl.Sta.Client.{NetworkResult}
use wifi_ctrl.Sta.Networks.{
  as_text, last, get_network, parse_get_network, with_flags, request_ssids, request_results,
}
use wifi_ctrl.Socket.Quiet.{IsQuiet, >>=-IsQuiet, pure-IsQuiet, request-IsQuiet}

module _ {R B : Type 0} (n : ℕ) (peer : Peer) where
  request_ssids-IsQuiet :
      (ls : List Bytes) (results : List NetworkResult)
      → IsQuiet {R = R} {B = B} (request_ssids n peer ls results)
  unfolding request_ssids
  request_ssids-IsQuiet [] results =
      pure-IsQuiet {A = ClientResult (List NetworkResult)} (ok results)
  request_ssids-IsQuiet (line ∷ rest) results = elim (List-cases (split_whitespace line)) [
    | inl blank ↦ rw (blank, request_ssids) (request_ssids-IsQuiet rest results)
    | inr (id, fields, some_words) ↦ elim (Result-cases (parse_unsigned usize_max id)) [
      | inl (network_id, good) ↦
          rw (some_words, good, request_ssids)
            (>>=-IsQuiet (request n peer (get_network network_id) parse_get_network) _
              (request-IsQuiet n peer (get_network network_id) parse_get_network)
              (elim [
                | ok ssid ↦
                    request_ssids-IsQuiet rest (results ++ with_flags network_id ssid (last fields))
                | err e ↦ pure-IsQuiet {A = ClientResult (List NetworkResult)} (err e)
              ]))
      | inr (e, bad) ↦ rw (some_words, bad, request_ssids) (request_ssids-IsQuiet rest results)
    ]
  ]

  pub request_results-IsQuiet : IsQuiet {R = R} {B = B} (request_results n peer)
  unfolding request_results
  request_results-IsQuiet =
      >>=-IsQuiet (request n peer (codes "LIST_NETWORKS") as_text) _
        (request-IsQuiet n peer (codes "LIST_NETWORKS") as_text)
        (elim [
          | ok response ↦ request_ssids-IsQuiet (skip_one (split b'\n' response)) []
          | err e ↦ pure-IsQuiet {A = ClientResult (List NetworkResult)} (err e)
        ])
