-- ===== src/Sta/Listed.antt =====
-- `request_results` of src/sta/types.rs: which networks are asked for, and which are returned.
use mathlib.Core.List.{append_assoc, append-nil}
use wifi_ctrl.Prelude.{
  ℕ, List, [], ◌∷◌, ◌++◌, Option, none, some, Result, ok, err, ◌≡◌, refl, sym, ap, ◌∙◌, map, inl,
  inr, List-cases, Result-cases,
}
use wifi_ctrl.Text.{Bytes, codes, split, skip_one}
use wifi_ctrl.Text.Number.{parse_unsigned, usize_max}
use wifi_ctrl.Text.Trim.{split_whitespace}
use wifi_ctrl.Errors.{SocketError, ClientResult}
use wifi_ctrl.Socket.World.{Peer, World, then_with, pure}
use wifi_ctrl.Socket.Handle.{request}
use wifi_ctrl.Socket.Frame.{request-Sends}
use wifi_ctrl.Sta.Client.{NetworkResult}
use wifi_ctrl.Sta.Networks.{
  as_text, last, get_network, parse_get_network, with_flags, request_ssids, request_results,
}

abbrev flagged : ℕ → Option Bytes → List ℕ
flagged n none = []
flagged n (some flags) = n ∷ []

-- The network of a line whose first word is a number.
abbrev pub asked_of : Bytes → List ℕ
asked_of line = elim (split_whitespace line) [
  | [] ↦ []
  | id ∷ fields ↦ elim (parse_unsigned usize_max id) [ err e ↦ [] | ok n ↦ n ∷ [] ]
]

-- The same of a line that has another word, which is then its flags.
abbrev pub listed_of : Bytes → List ℕ
listed_of line = elim (split_whitespace line) [
  | [] ↦ []
  | id ∷ fields ↦ elim (parse_unsigned usize_max id) [ err e ↦ [] | ok n ↦ flagged n (last fields) ]
]

abbrev pub asked : List Bytes → List ℕ
asked [] = []
asked (line ∷ rest) = asked_of line ++ asked rest

abbrev pub listed : List Bytes → List ℕ
listed [] = []
listed (line ∷ rest) = listed_of line ++ listed rest

-- The log of commands behind a "GET_NETWORK" for each of these.
abbrev pub asking : List ℕ → List Bytes → List Bytes
asking [] log = log
asking (n ∷ ns) log = asking ns (get_network n ∷ log)

abbrev pub ids : List NetworkResult → List ℕ
ids rs = map (λ r. r.network_id) rs

ids-append : (rs ts : List NetworkResult) → ids (rs ++ ts) ≡ ids rs ++ ids ts
ids-append [] ts = refl
ids-append (r ∷ rs) ts = ap (λ l. r.network_id ∷ l) (ids-append rs ts)

ids-with_flags : (n : ℕ) (ssid : Bytes) (o : Option Bytes) → ids (with_flags n ssid o) ≡ flagged n o
ids-with_flags n ssid none = refl
ids-with_flags n ssid (some flags) = refl

module _ {R B : Type 0} (n : ℕ) (peer : Peer) where
  -- The networks `ns` were asked for, one behind the other, and each answer could be parsed.
  pub data Asked : List ℕ → World R B → World R B → Type 0 where
    asked_none : {w : World R B} → Asked [] w w
    asked_one :
        {k : ℕ} {ks : List ℕ} {w w' w'' : World R B} (ssid : Bytes)
        → request n peer (get_network k) parse_get_network w ≡ (ok (ok ssid), w')
        → Asked ks w' w''
        → Asked (k ∷ ks) w w''

  -- The request of one network failed, as `x`: those in front of it were asked for, it is the last that was
  -- asked for, and `es` behind it were not.
  abbrev pub Failed :
      List ℕ → World R B → Result SocketError (ClientResult Bytes) × World R B → Type 0
  Failed ns w x =
      (ds : List ℕ) × (k : ℕ) × (es : List ℕ) × (ns ≡ ds ++ k ∷ es)
      × (u : World R B) × Asked ds w u
      × (request n peer (get_network k) parse_get_network u ≡ x)
      × (x.1.sent ≡ asking (ds ++ k ∷ []) w.sent)

  -- Behind the lines, with `results` from the lines before: every network was asked for once, in order,
  -- and those with flags were added. Or a request failed, and those behind it were not asked for.
  abbrev pub Listed :
      List Bytes
      → List NetworkResult
      → World R B
      → Result SocketError (ClientResult (List NetworkResult)) × World R B
      → Type 0
  Listed ls results w (ok (ok rs), w') =
      (ids rs ≡ ids results ++ listed ls)
      × Asked (asked ls) w w'
      × (w'.sent ≡ asking (asked ls) w.sent)
  Listed ls results w (ok (err e), w') = Failed (asked ls) w (ok (err e), w')
  Listed ls results w (err e, w') = Failed (asked ls) w (err e, w')

  Failed-cons :
      (line : Bytes) (rest : List Bytes) (k : ℕ) (w w' : World R B) (ssid : Bytes)
      (x : Result SocketError (ClientResult Bytes) × World R B)
      → asked_of line ≡ k ∷ []
      → request n peer (get_network k) parse_get_network w ≡ (ok (ok ssid), w')
      → w'.sent ≡ get_network k ∷ w.sent
      → Failed (asked rest) w' x
      → Failed (asked (line ∷ rest)) w x
  Failed-cons line rest k w w' ssid x a c h (ds, j, es, p, u, b, r, s) = (
    k ∷ ds,
    j,
    es,
    ap (λ q. q ++ asked rest) a ∙ ap (λ q. k ∷ q) p,
    u,
    asked_one ssid c b,
    r,
    s ∙ ap (asking (ds ++ j ∷ [])) h,
  )

  Failed-skip :
      (line : Bytes) (rest : List Bytes) (w : World R B)
      (x : Result SocketError (ClientResult Bytes) × World R B)
      → asked_of line ≡ []
      → Failed (asked rest) w x
      → Failed (asked (line ∷ rest)) w x
  Failed-skip line rest w x a (ds, j, es, p, u, b, r, s) =
      (ds, j, es, ap (λ q. q ++ asked rest) a ∙ p, u, b, r, s)

  -- The first of the networks failed.
  Failed-here :
      (line : Bytes) (rest : List Bytes) (k : ℕ) (w : World R B)
      (x : Result SocketError (ClientResult Bytes) × World R B)
      → asked_of line ≡ k ∷ []
      → request n peer (get_network k) parse_get_network w ≡ x
      → x.1.sent ≡ get_network k ∷ w.sent
      → Failed (asked (line ∷ rest)) w x
  Failed-here line rest k w x a r h =
      ([], k, asked rest, ap (λ q. q ++ asked rest) a, w, asked_none, r, h)

  -- One line more in front, whose network was asked for and gave `fs`.
  Listed-cons :
      (line : Bytes) (rest : List Bytes) (results fs : List NetworkResult) (k : ℕ)
      (w w' : World R B) (ssid : Bytes)
      → asked_of line ≡ k ∷ []
      → listed_of line ≡ ids fs
      → request n peer (get_network k) parse_get_network w ≡ (ok (ok ssid), w')
      → w'.sent ≡ get_network k ∷ w.sent
      → (x : Result SocketError (ClientResult (List NetworkResult)) × World R B)
      → Listed rest (results ++ fs) w' x
      → Listed (line ∷ rest) results w x
  Listed-cons line rest results fs k w w' ssid a l c h (ok (ok rs), u) (i, b, s) = (
    i
        ∙ ap (λ q. q ++ listed rest) (ids-append results fs)
        ∙ append_assoc (ids results) (ids fs) (listed rest)
        ∙ ap (λ q. ids results ++ (q ++ listed rest)) (sym l),
    rw a (asked_one ssid c b),
    s ∙ ap (asking (asked rest)) h ∙ ap (λ q. asking (q ++ asked rest) w.sent) (sym a),
  )
  Listed-cons line rest results fs k w w' ssid a l c h (ok (err e), u) f =
      Failed-cons line rest k w w' ssid (ok (err e), u) a c h f
  Listed-cons line rest results fs k w w' ssid a l c h (err e, u) f =
      Failed-cons line rest k w w' ssid (err e, u) a c h f

  -- A line that names no network changes nothing.
  Listed-skip :
      (line : Bytes) (rest : List Bytes) (results : List NetworkResult) (w : World R B)
      → asked_of line ≡ []
      → listed_of line ≡ []
      → (x : Result SocketError (ClientResult (List NetworkResult)) × World R B)
      → Listed rest results w x
      → Listed (line ∷ rest) results w x
  Listed-skip line rest results w a l (ok (ok rs), u) (i, b, s) = (
    i ∙ ap (λ k. ids results ++ (k ++ listed rest)) (sym l),
    rw a b,
    s ∙ ap (λ k. asking (k ++ asked rest) w.sent) (sym a),
  )
  Listed-skip line rest results w a l (ok (err e), u) f =
      Failed-skip line rest w (ok (err e), u) a f
  Listed-skip line rest results w a l (err e, u) f = Failed-skip line rest w (err e, u) a f

  request_ssids-Listed :
      (ls : List Bytes) (results : List NetworkResult) (w : World R B)
      → Listed ls results w (request_ssids n peer ls results w)
  unfolding request_ssids
  request_ssids-Listed [] results w = (sym (append-nil (ids results)), asked_none, refl)
  request_ssids-Listed (line ∷ rest) results w = elim (List-cases (split_whitespace line)) [
    | inl blank ↦
        rw (blank, request_ssids)
          (Listed-skip line rest results w (rw (asked_of, blank) refl) (rw (listed_of, blank) refl)
            (request_ssids n peer rest results w) (request_ssids-Listed rest results w))
    | inr (id, fields, some_words) ↦ elim (Result-cases (parse_unsigned usize_max id)) [
      | inr (e, bad) ↦
          rw (some_words, bad, request_ssids)
            (Listed-skip line rest results w (rw (asked_of, some_words, bad) refl)
              (rw (listed_of, some_words, bad) refl) (request_ssids n peer rest results w)
              (request_ssids-Listed rest results w))
      | inl (k, good) ↦
          rw (some_words, good, request_ssids)
            (go k (last fields) (rw (asked_of, some_words, good) refl)
              (rw (listed_of, some_words, good) refl)
              (request n peer (get_network k) parse_get_network w) refl
              (request-Sends n peer (get_network k) parse_get_network w).sent_is
              (λ fs w'. request_ssids-Listed rest (results ++ fs) w'))
    ]
  ]
    where
      go :
          (k : ℕ) (o : Option Bytes)
          → asked_of line ≡ k ∷ []
          → listed_of line ≡ flagged k o
          → (x : Result SocketError (ClientResult Bytes) × World R B)
          → request n peer (get_network k) parse_get_network w ≡ x
          → x.1.sent ≡ get_network k ∷ w.sent
          → ((fs : List NetworkResult) (w' : World R B)
              → Listed rest (results ++ fs) w' (request_ssids n peer rest (results ++ fs) w'))
          → Listed (line ∷ rest) results w (
              then_with x (elim [
                | ok ssid ↦ request_ssids n peer rest (results ++ with_flags k ssid o)
                | err e ↦ pure (err e)
              ]))
      go k o a l (ok (ok ssid), w') r h ih =
          Listed-cons line rest results (with_flags k ssid o) k w w' ssid a
            (l ∙ sym (ids-with_flags k ssid o)) r h
            (request_ssids n peer rest (results ++ with_flags k ssid o) w')
            (ih (with_flags k ssid o) w')
      go k o a l (ok (err e), w') r h ih = Failed-here line rest k w (ok (err e), w') a r h
      go k o a l (err e, w') r h ih = Failed-here line rest k w (err e, w') a r h

  -- If the request of "LIST_NETWORKS" returns a text, then for every line of it behind the first whose
  -- first word is a number that fits `usize`, the SSID of that network is asked for, once and in order.
  -- If all answers can be parsed, the networks returned are those of these lines that have a further
  -- word, in order. Otherwise the request of one of these networks failed, and those of the ones in
  -- front of it did not: its error is the result, it is the last that was sent, and the ones behind it
  -- were not.
  pub request_results-Listed :
      (w w' : World R B) (response : Bytes)
      → request n peer (codes "LIST_NETWORKS") as_text w ≡ (ok (ok response), w')
      → Listed (skip_one (split b'\n' response)) [] w' (request_results n peer w)
  unfolding request_results
  request_results-Listed w w' response h =
      rw h (request_ssids-Listed (skip_one (split b'\n' response)) [] w')
