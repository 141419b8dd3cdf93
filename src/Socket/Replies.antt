-- ===== src/Socket/Replies.antt =====
-- `request` of src/socket_handle.rs: which reply a request gets.
use wifi_ctrl.Prelude.{
  ℕ, List, [], ◌∷◌, ◌++◌, ◌≡◌, refl, ok, map, length, take, drop, sym, ap, ◌∙◌, ==_self,
}
use mathlib.Core.List.{append_assoc, append-nil}
use wifi_ctrl.Text.{Bytes}
use wifi_ctrl.Errors.{ClientResult}
use wifi_ctrl.Socket.World.{readable, Peer, World, M, ◌>>=◌, pure}
use wifi_ctrl.Socket.Handle.{Parser, parse_resp, send, wait_reply, request}

-- The daemon answers each command with one datagram, in time.
pub record AnswersOnce (peer : Peer) (reply : List Bytes → Bytes) : Type 0 where
  pub written_is : (log : List Bytes) (cmd : Bytes) → (peer (cmd ∷ log)).written ≡ ok (length cmd)
  pub arrivals_is :
      (log : List Bytes) (cmd : Bytes) → (peer (cmd ∷ log)).arrivals ≡ reply (cmd ∷ log) ∷ []
  pub window_is : (log : List Bytes) (cmd : Bytes) → (peer (cmd ∷ log)).window ≡ readable

-- Requests one behind the other, with the same parser, and their results.
module _ (n : ℕ) (peer : Peer) {R B : Type 0} where
  unfoldable pub run_requests : {T : Type 0} → Parser T → List Bytes → M R B (List (ClientResult T))
  run_requests parse [] = pure []
  run_requests parse (c ∷ cs) = do
    r ← request n peer c parse
    rs ← run_requests parse cs
    pure (r ∷ rs)

-- The replies to a list of commands sent after `log`.
abbrev pub replies : (List Bytes → Bytes) → List Bytes → List Bytes → List Bytes
replies reply log [] = []
replies reply log (c ∷ cs) = reply (c ∷ log) ∷ replies reply (c ∷ log) cs

uncons : (q : List Bytes) (r : Bytes) → (d : Bytes) × (rest : List Bytes) × (q ++ r ∷ [] ≡ d ∷ rest)
uncons [] r = (r, [], refl)
uncons (d ∷ q) r = (d, q ++ r ∷ [], refl)

module _ (n : ℕ) (peer : Peer) (reply : List Bytes → Bytes) {R B : Type 0}
    (once : AnswersOnce peer reply) where
  request_once :
      {T : Type 0} (parse : Parser T) (c d : Bytes) (rest : List Bytes) (w : World R B)
      → w.inbox ++ reply (c ∷ w.sent) ∷ [] ≡ d ∷ rest
      → request n peer c parse w ≡ (
        ok (parse_resp parse (take n d)),
        record w { inbox = rest; window = readable; sent = c ∷ w.sent },
      )
  unfolding request send wait_reply
  request_once parse c d rest w h =
      simp (once.written_is, once.arrivals_is, once.window_is, h, ==_self)

  -- Requests with the same parser are sent one behind the other, to a daemon that answers each
  -- command with one datagram in time. The results are those of the datagrams that waited at the
  -- start, then of the replies, as many as there are commands; the rest still waits. So if a
  -- datagram waits at the start, no reply goes to the command that it answers.
  pub run_requests_lem :
      {T : Type 0} (parse : Parser T) (cs : List Bytes) (w : World R B)
      → ((run_requests n peer parse cs w).0
          ≡ ok (
              map
                (λ d. parse_resp parse (take n d))
                (take (length cs) (w.inbox ++ replies reply w.sent cs))))
        × ((run_requests n peer parse cs w).1.inbox
            ≡ drop (length cs) (w.inbox ++ replies reply w.sent cs))
  unfolding run_requests
  run_requests_lem parse [] w = (refl, sym (append-nil w.inbox))
  run_requests_lem parse (c ∷ cs) w =
      let (d, rest, e) = uncons w.inbox (reply (c ∷ w.sent)) in
      let ih =
        run_requests_lem parse cs
          (record w { inbox = rest; window = readable; sent = c ∷ w.sent }) in
      let joined : w.inbox ++ replies reply w.sent (c ∷ cs)
          ≡ d ∷ (rest ++ replies reply (c ∷ w.sent) cs) =
        sym (append_assoc w.inbox (reply (c ∷ w.sent) ∷ []) (replies reply (c ∷ w.sent) cs))
        ∙ ap (λ q. q ++ replies reply (c ∷ w.sent) cs) e in
      rw (request_once parse c d rest w e, joined, ih.0) (refl, ih.1)
