-- ===== src/Sta/Events/Classified.antt =====
-- What the datagrams of src/sta/event_socket.rs are taken for, and what the loop of src/sta/mod.rs does.
use wifi_ctrl.Prelude.{
  ◌≤◌, false, ◌∷◌, ◌++◌, Option, none, some, ok, length, take-length, ◌≡◌, refl, ap, ◌∙◌,
  Bool-cases, inl, inr,
}
use wifi_ctrl.Text.{Bytes, codes, contains, ends_with}
use wifi_ctrl.Text.Contains.{Within, contains_iff, Within-first, Within-append, ends_with-Within}
use wifi_ctrl.Text.Trim.{trim_end, trim_end-prefix}
use wifi_ctrl.Text.Utf8.{IsUtf8, from_utf8_lossy, from_utf8_lossy-IsUtf8}
use wifi_ctrl.Errors.{ClientResult}
use wifi_ctrl.Socket.World.{Peer, then_with, pure}
use wifi_ctrl.Sta.Client.{Broadcast, SelectResult, success}
use wifi_ctrl.Sta.Events.{Event, classify, read_event}
use wifi_ctrl.Sta.Loop.{event, running, step}
use wifi_ctrl.Sta.Station.{Settings, Pending, SelectRequest, handle_event, resolve_select}
use wifi_ctrl.Sta.Station.Balance.{StaWorld}
use wifi_ctrl.Sta.Station.Select.{verdict_answers}

-- A datagram that fits the buffer and is a text.
read_event-classify : (s : Bytes) → length s ≤ 1024 → IsUtf8 s → read_event s ≡ classify s
unfolding read_event
read_event-classify s l u =
    ap (λ d. classify (from_utf8_lossy d)) (take-length 1024 s l)
    ∙ ap classify (from_utf8_lossy-IsUtf8 s u)

not_contained : (s pat : Bytes) → ¬ Within pat s → contains s pat ≡ false
not_contained s pat h = elim (Bool-cases (contains s pat)) [
  | inl e ↦ absurd (h ((contains_iff s pat).0 e))
  | inr e ↦ e
]

not_ended : (s pat : Bytes) → ¬ Within pat s → ends_with (trim_end s) pat ≡ false
not_ended s pat h = elim (Bool-cases (ends_with (trim_end s) pat)) [
  | inl e ↦
      let (rest, q) = trim_end-prefix s in
      let (front, back, f) =
        Within-append pat (trim_end s) rest (ends_with-Within (trim_end s) pat e) in
      absurd (h (front, back, q ∙ f))
  | inr e ↦ e
]

-- A text without the first part of a pattern.
without : (first more s : Bytes) → ¬ Within first s → ¬ Within (first ++ more) s
without first more s h x = h (Within-first first more s x)

classify-connected :
    (front back : Bytes)
    → ¬ Within (codes "CTRL-EVENT-SCAN-") (front ++ (codes "CTRL-EVENT-CONNECTED" ++ back))
    → classify (front ++ (codes "CTRL-EVENT-CONNECTED" ++ back)) ≡ Event.connected
classify-connected front back h =
    let s = front ++ (codes "CTRL-EVENT-CONNECTED" ++ back) in
    let results =
      not_ended s (codes "CTRL-EVENT-SCAN-RESULTS")
        (without (codes "CTRL-EVENT-SCAN-") (codes "RESULTS") s h) in
    let failed =
      not_contained s (codes "CTRL-EVENT-SCAN-FAILED")
        (without (codes "CTRL-EVENT-SCAN-") (codes "FAILED") s h) in
    let connected = (contains_iff s (codes "CTRL-EVENT-CONNECTED")).1 (front, back, refl) in
    rw (results, failed, connected) refl

classify-unknown :
    (s : Bytes) → ¬ Within (codes "CTRL-EVENT-") s → classify s ≡ Event.unknown (trim_end s)
classify-unknown s h =
    let none_of = λ (more : Bytes). without (codes "CTRL-EVENT-") more s h in
    rw
      (
        not_ended s (codes "CTRL-EVENT-SCAN-RESULTS") (none_of (codes "SCAN-RESULTS")),
        not_contained s (codes "CTRL-EVENT-SCAN-FAILED") (none_of (codes "SCAN-FAILED")),
        not_contained s (codes "CTRL-EVENT-CONNECTED") (none_of (codes "CONNECTED")),
        not_contained s (codes "CTRL-EVENT-DISCONNECTED") (none_of (codes "DISCONNECTED")),
        not_contained s (codes "CTRL-EVENT-NETWORK-NOT-FOUND")
            (none_of (codes "NETWORK-NOT-FOUND")),
        not_contained s (codes "CTRL-EVENT-SSID-TEMP-DISABLED")
            (none_of (codes "SSID-TEMP-DISABLED")),
      )
      refl

resolve_select-verdict :
    (r : ClientResult SelectResult) (p : Pending) (o : Option SelectRequest) (w : StaWorld)
    → p.select_request ≡ o
    → resolve_select r p o w ≡ (
      ok (record p { select_request = none }),
      record w { answers = verdict_answers r o ++ w.answers },
    )
unfolding resolve_select
resolve_select-verdict r p none w e = ap (λ o. (ok (record p { select_request = o }), w)) e
resolve_select-verdict r p (some q) w e = refl

module _ (st : Settings) (peer : Peer) where
  -- A datagram of 1024 bytes at most that is UTF-8 and holds "CTRL-EVENT-CONNECTED" at any place, also
  -- inside a network's name, and nowhere "CTRL-EVENT-SCAN-": the round that reads it broadcasts
  -- "connected" and answers a pending select with `Success`, and does nothing else.
  pub step-connected :
      (front back : Bytes) (p : Pending) (w : StaWorld)
      → length (front ++ (codes "CTRL-EVENT-CONNECTED" ++ back)) ≤ 1024
      → IsUtf8 (front ++ (codes "CTRL-EVENT-CONNECTED" ++ back))
      → ¬ Within (codes "CTRL-EVENT-SCAN-") (front ++ (codes "CTRL-EVENT-CONNECTED" ++ back))
      → step st peer (event (ok (front ++ (codes "CTRL-EVENT-CONNECTED" ++ back)))) p w ≡ (
        ok (running (record p { select_request = none })),
        record w {
          answers = verdict_answers (ok success) p.select_request ++ w.answers;
          broadcasts = Broadcast.connected ∷ w.broadcasts;
        },
      )
  unfolding step handle_event
  step-connected front back p w l u h =
      let e =
        read_event-classify (front ++ (codes "CTRL-EVENT-CONNECTED" ++ back)) l u
        ∙ classify-connected front back h in
      ap (λ ev. then_with (handle_event st peer ev p w) (λ p'. pure (running p'))) e
      ∙ ap (λ x. then_with x (λ p'. pure (running p')))
          (resolve_select-verdict (ok success) p p.select_request
            (record w { broadcasts = Broadcast.connected ∷ w.broadcasts }) refl)

  -- A datagram of 1024 bytes at most that is UTF-8 and holds no "CTRL-EVENT-", as the reply "FAIL" to
  -- "ATTACH": the round that reads it broadcasts the text without white space at its end as unknown, and
  -- does nothing else.
  pub step-unknown :
      (s : Bytes) (p : Pending) (w : StaWorld)
      → length s ≤ 1024
      → IsUtf8 s
      → ¬ Within (codes "CTRL-EVENT-") s
      → step st peer (event (ok s)) p w
        ≡ (ok (running p), record w { broadcasts = Broadcast.unknown (trim_end s) ∷ w.broadcasts })
  unfolding step handle_event
  step-unknown s p w l u h =
      let e = read_event-classify s l u ∙ classify-unknown s h in
      ap (λ ev. then_with (handle_event st peer ev p w) (λ p'. pure (running p'))) e
