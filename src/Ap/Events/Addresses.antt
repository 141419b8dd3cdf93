-- ===== src/Ap/Events/Addresses.antt =====
-- What the datagrams of src/ap/event_socket.rs are taken for, and what the loop of src/ap/mod.rs does.
use wifi_ctrl.Prelude.{
  ◌≤◌, ◌≢◌, ◌∷◌, ◌++◌, none, some, ok, length, take-length, All, ◌≡◌, refl, ap, ◌∙◌,
}
use wifi_ctrl.Text.{Bytes, codes, find_after}
use wifi_ctrl.Text.Contains.{Within, find_after-none, find_after-first}
use wifi_ctrl.Text.Trim.{trim}
use wifi_ctrl.Text.Utf8.{IsUtf8, from_utf8_lossy, from_utf8_lossy-IsUtf8}
use wifi_ctrl.Config.Table.{Table}
use wifi_ctrl.Socket.World.{Peer, then_with, pure}
use wifi_ctrl.Ap.Client.{Broadcast}
use wifi_ctrl.Ap.Events.{Event, classify, read_event}
use wifi_ctrl.Ap.Runner.{event_wake, running, handle_event, step}
use wifi_ctrl.Ap.Served.{ApWorld}

-- A datagram that fits the buffer and is a text.
read_event-classify : (s : Bytes) → length s ≤ 1024 → IsUtf8 s → read_event s ≡ classify s
unfolding read_event
read_event-classify s l u =
    ap (λ d. classify (from_utf8_lossy d)) (take-length 1024 s l)
    ∙ ap classify (from_utf8_lossy-IsUtf8 s u)

found_disconnected :
    (s mac : Bytes)
    → find_after (codes "AP-STA-DISCONNECTED") s ≡ some mac
    → classify s ≡ Event.ap_sta_disconnected (trim mac)
found_disconnected s mac h = rw (h, classify) refl

found_connected :
    (s mac : Bytes)
    → find_after (codes "AP-STA-DISCONNECTED") s ≡ none
    → find_after (codes "AP-STA-CONNECTED") s ≡ some mac
    → classify s ≡ Event.ap_sta_connected (trim mac)
found_connected s mac h h' = rw (h, h', classify) refl

found_neither :
    (s : Bytes)
    → find_after (codes "AP-STA-DISCONNECTED") s ≡ none
    → find_after (codes "AP-STA-CONNECTED") s ≡ none
    → classify s ≡ Event.unknown s
found_neither s h h' = rw (h, h', classify) refl

module _ (order : Table → Table) (peer : Peer) where
  heard_as :
      (s : Bytes) (e : Event) (w : ApWorld)
      → length s ≤ 1024
      → IsUtf8 s
      → classify s ≡ e
      → step order peer (event_wake (ok s)) w ≡ then_with (handle_event e w) (λ _. pure running)
  unfolding step
  heard_as s e w l u h =
      ap (λ ev. then_with (handle_event ev w) (λ _. pure running)) (read_event-classify s l u ∙ h)

  -- A datagram of 1024 bytes at most that is UTF-8. If it starts with a front that holds no "A", as the
  -- level "<3>", and goes on with "AP-STA-DISCONNECTED", the round that reads it broadcasts that the
  -- station with the address behind it, without the white space around it, has disconnected, and does
  -- nothing else.
  pub step-disconnected :
      (front back : Bytes) (w : ApWorld)
      → length (front ++ (codes "AP-STA-DISCONNECTED" ++ back)) ≤ 1024
      → IsUtf8 (front ++ (codes "AP-STA-DISCONNECTED" ++ back))
      → All (λ x. x ≢ b'A') front
      → step order peer (event_wake (ok (front ++ (codes "AP-STA-DISCONNECTED" ++ back)))) w
        ≡ (ok running, record w { broadcasts = Broadcast.disconnected (trim back) ∷ w.broadcasts })
  unfolding handle_event
  step-disconnected front back w l u h =
      heard_as (front ++ (codes "AP-STA-DISCONNECTED" ++ back))
        (Event.ap_sta_disconnected (trim back)) w l u
        (found_disconnected (front ++ (codes "AP-STA-DISCONNECTED" ++ back)) back
          (find_after-first b'A' (codes "P-STA-DISCONNECTED") front back h))

  -- A datagram of 1024 bytes at most that is UTF-8 and holds no "AP-STA-DISCONNECTED". If it starts with a
  -- front that holds no "A", as the level "<3>", and goes on with "AP-STA-CONNECTED", the round that reads
  -- it broadcasts that the station with the address behind it, without the white space around it, has
  -- connected, and does nothing else.
  pub step-ap_connected :
      (front back : Bytes) (w : ApWorld)
      → length (front ++ (codes "AP-STA-CONNECTED" ++ back)) ≤ 1024
      → IsUtf8 (front ++ (codes "AP-STA-CONNECTED" ++ back))
      → All (λ x. x ≢ b'A') front
      → ¬ Within (codes "AP-STA-DISCONNECTED") (front ++ (codes "AP-STA-CONNECTED" ++ back))
      → step order peer (event_wake (ok (front ++ (codes "AP-STA-CONNECTED" ++ back)))) w
        ≡ (ok running, record w { broadcasts = Broadcast.connected (trim back) ∷ w.broadcasts })
  unfolding handle_event
  step-ap_connected front back w l u h d =
      heard_as (front ++ (codes "AP-STA-CONNECTED" ++ back)) (Event.ap_sta_connected (trim back)) w
        l u
        (found_connected (front ++ (codes "AP-STA-CONNECTED" ++ back)) back
          (find_after-none (codes "AP-STA-DISCONNECTED")
            (front ++ (codes "AP-STA-CONNECTED" ++ back)) d)
          (find_after-first b'A' (codes "P-STA-CONNECTED") front back h))

  -- A datagram of 1024 bytes at most that is UTF-8 and holds neither of the two: the round that reads it
  -- broadcasts the whole text as unknown, and does nothing else.
  pub step-ap_unknown :
      (s : Bytes) (w : ApWorld)
      → length s ≤ 1024
      → IsUtf8 s
      → ¬ Within (codes "AP-STA-DISCONNECTED") s
      → ¬ Within (codes "AP-STA-CONNECTED") s
      → step order peer (event_wake (ok s)) w
        ≡ (ok running, record w { broadcasts = Broadcast.unknown_event s ∷ w.broadcasts })
  unfolding handle_event
  step-ap_unknown s w l u d c = heard_as s (Event.unknown s) w l u (
      found_neither s (find_after-none (codes "AP-STA-DISCONNECTED") s d)
        (find_after-none (codes "AP-STA-CONNECTED") s c))
