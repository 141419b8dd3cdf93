-- ===== src/Socket/Handle.antt =====
-- The operations of `SocketHandle` on an open socket. `buffer_size` is its `N`.
use wifi_ctrl.Prelude.{
  ℕ, Bool, true, false, not, List, [], ◌∷◌, ◌++◌, ◌==◌, if◌then◌else◌, Result, ok, err, map_ok,
  map_err, length, take, ◌≡◌, refl,
}
use wifi_ctrl.Prelude
use wifi_ctrl.Text.{Bytes, codes, bytes_eq}
use wifi_ctrl.Text.Trim.{trim_end_matches}
use wifi_ctrl.Text.Utf8.{from_utf8, from_utf8_lossy}
use wifi_ctrl.Errors.{
  io, ParseError, not_ok, utf8_parse, ClientResult, failed, timeout, parsing_response,
  did_not_write_all_bytes,
}
use wifi_ctrl.Socket.World.{Window, readable, expired, broken, Peer, M, ◌>>=◌, pure}

-- A parser of responses.
abbrev pub Parser : Type 0 → Type 0
Parser T = Bytes → Result ParseError T

-- The text of a datagram: UTF-8, without the newlines at its end.
abbrev pub response_text : Bytes → Result ParseError Bytes
response_text bytes = map_err utf8_parse (map_ok (trim_end_matches b'\n') (from_utf8 bytes))

abbrev pub is_fail : Result ParseError Bytes → Bool
is_fail (ok s) = bytes_eq s (codes "FAIL")
is_fail (err e) = false

-- `parse_resp` on the bytes that were read.
unfoldable pub parse_resp : {T : Type 0} → Parser T → Bytes → ClientResult T
parse_resp parse bytes =
    let str = response_text bytes in
    map_err
      (λ error. if is_fail str then failed else parsing_response error (from_utf8_lossy bytes))
      (Prelude.◌>>=◌ str parse)

-- The parser of `command_matching`.
abbrev pub accepting : (Bytes → Bool) → Parser (Unit {0})
accepting accept data' = if accept data' then ok tt else err not_ok

abbrev pub is_ok : Bytes → Bool
is_ok data' = bytes_eq data' (codes "OK")

module _ (buffer_size : ℕ) (peer : Peer) {R B : Type 0} where
  -- `socket.send`.
  unfoldable pub send : Bytes → M R B ℕ
  send cmd w =
      let e = peer (cmd ∷ w.sent) in
      let w' = record w { inbox = w.inbox ++ e.arrivals; window = e.window; sent = cmd ∷ w.sent } in
      (map_err io e.written, w')

  -- `select!` of `parse_resp` and the timer. A datagram is cut to the buffer's size, and with no
  -- datagram to read only the timer can end the wait.
  unfoldable pub wait_reply : {T : Type 0} → Parser T → Window → List Bytes → M R B (ClientResult T)
  wait_reply parse readable (d ∷ ds) w =
      (ok (parse_resp parse (take buffer_size d)), record w { inbox = ds })
  wait_reply parse readable [] w = (ok (err timeout), w)
  wait_reply parse expired ds w = (ok (err timeout), w)
  wait_reply parse (broken e) ds w = (err (io e), w)

  abbrev pub receive : {T : Type 0} → Parser T → M R B (ClientResult T)
  receive parse w = wait_reply parse w.window w.inbox w

  unfoldable pub request : {T : Type 0} → Bytes → Parser T → M R B (ClientResult T)
  unfolding send wait_reply
  request req parse = do
    n ← send req
    if n == length req then receive parse else pure (err (did_not_write_all_bytes n (length req)))

  unfoldable pub command_matching : Bytes → (Bytes → Bool) → M R B (ClientResult (Unit {0}))
  unfolding send wait_reply
  command_matching cmd accept = do
    n ← send cmd
    if n == length cmd
        then receive (accepting accept)
        else pure (err (did_not_write_all_bytes n (length cmd)))

  abbrev pub command : Bytes → M R B (ClientResult (Unit {0}))
  command cmd = command_matching cmd is_ok
