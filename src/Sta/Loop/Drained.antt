-- ===== src/Sta/Loop/Drained.antt =====
-- `run_internal` of src/sta/mod.rs: when nothing waits any more.
use mathlib.Core.Path.{subst}
use mathlib.Core.List.{append-nil, append_assoc}
use wifi_ctrl.Prelude.{
  ℕ, ◌+◌, List, [], ◌∷◌, ◌++◌, Option, none, some, Result, ok, err, ◌≡◌, ◌⊎◌, inl, inr, refl, sym,
  ap, ◌∙◌, arith, count,
}
use wifi_ctrl.Text.{Bytes, codes}
use wifi_ctrl.Errors.{SocketError, ClientResult, failed}
use wifi_ctrl.Socket.World.{Peer, then_with, pure}
use wifi_ctrl.Socket.Handle.{request}
use wifi_ctrl.Sta.Events.{Event, read_event}
use wifi_ctrl.Sta.Loop.{
  Wake, event, select_timeout, Flow, running, stopped, step, run_internal, no_pending,
}
use wifi_ctrl.Sta.Loop.Settled.{channel_of, channels, Settled, run_internal-Settled}
use wifi_ctrl.Sta.Scan.{ScanResult, vec_from_str}
use wifi_ctrl.Sta.Station.{
  Settings, Pending, SelectRequest, buffer_size, handle_event, resolve_select,
}
use wifi_ctrl.Sta.Station.Balance.{StaWorld, answered}
use wifi_ctrl.Sta.Station.Select.{handle_event-scan_answers, answer_all-scan_answers}

channels-append :
    (front back : List Wake) → channels (front ++ back) ≡ channels front ++ channels back
channels-append [] back = refl
channels-append (wake ∷ front) back =
    ap (λ l. channel_of wake ++ l) (channels-append front back)
    ∙ sym (append_assoc (channel_of wake) (channels front) (channels back))

module _ (s : Settings) (peer : Peer) where
  -- What goes on behind wakes that leave the loop running.
  run_internal-append :
      (front back : List Wake) (p p' : Pending) (w w' : StaWorld)
      → run_internal s peer front p w ≡ (ok (running p'), w')
      → run_internal s peer (front ++ back) p w ≡ run_internal s peer back p' w'
  unfolding run_internal
  run_internal-append [] back p p' w w' h =
      let same : p ≡ p' = cc in let same_world : w ≡ w' = cc in rw (same, same_world) refl
  run_internal-append (wake ∷ front) back p p' w w' h =
      go (step s peer wake p w) h (λ q v. run_internal-append front back q p' v w')
    where
      go :
          (x : Result SocketError Flow × StaWorld)
          → then_with x (λ flow. elim flow [
            | running q ↦ run_internal s peer front q
            | stopped q ↦ pure (stopped q)
          ])
            ≡ (ok (running p'), w')
          → ((q : Pending) (v : StaWorld)
              → run_internal s peer front q v ≡ (ok (running p'), w')
              → run_internal s peer (front ++ back) q v ≡ run_internal s peer back p' w')
          → then_with x (λ flow. elim flow [
            | running q ↦ run_internal s peer (front ++ back) q
            | stopped q ↦ pure (stopped q)
          ])
            ≡ run_internal s peer back p' w'
      go (ok (running q), v) e ih = ih q v e
      go (ok (stopped q), v) e ih = absurd cc
      go (err x, v) e ih = absurd cc

  -- The scan's end answers the scans, and leaves the rest of the loop's variables.
  abbrev pub EndsScan : StaWorld → Bytes → Type 0
  EndsScan w d =
      (read_event d ≡ Event.scan_failed)
      ⊎ ((read_event d ≡ Event.scan_complete)
          × (r : ClientResult (List ScanResult)) × (v : StaWorld) × (request buffer_size peer
                (codes "SCAN_RESULTS") vec_from_str w
              ≡ (ok r, v)))

  scan_ended :
      (p : Pending) (w : StaWorld) (d : Bytes)
      → EndsScan w d
      → (v : StaWorld) × (step s peer (event (ok d)) p w
          ≡ (ok (running (record p { scan_requests = [] })), v))
  unfolding step handle_event
  scan_ended p w d (inl e) = (
    _,
    ap (λ ev. then_with (handle_event s peer ev p w) (λ p'. pure (running p'))) e
        ∙ ap
            (λ x.
              then_with (then_with x (λ _. pure (record p { scan_requests = [] })))
                (λ p'. pure (running p')))
            (answer_all-scan_answers p.scan_requests (err failed) w),
  )
  scan_ended p w d (inr (e, r, v, q)) = (
    _,
    ap (λ ev. then_with (handle_event s peer ev p w) (λ p'. pure (running p'))) e
        ∙ ap (λ x. then_with x (λ p'. pure (running p')))
            (handle_event-scan_answers s peer p w v r q).0,
  )

  -- The timer answers the select, if one is pending.
  select_ended :
      (o : Option SelectRequest) (w : StaWorld)
      → (v : StaWorld) × (step s peer select_timeout
            (record { scan_requests = []; select_request = o })
            w
          ≡ (ok (running no_pending), v))
  unfolding step resolve_select
  select_ended none w = (w, refl)
  select_ended (some q) w = (_, refl)

  drained :
      (p : Pending) (w : StaWorld) (d : Bytes)
      → EndsScan w d
      → (v : StaWorld) × (run_internal s peer (event (ok d) ∷ select_timeout ∷ []) p w
          ≡ (ok (running no_pending), v))
  unfolding run_internal
  drained p w d h =
      let (v, e) = scan_ended p w d h in
      let (u, f) = select_ended p.select_request v in (u, rw (e, f) refl)

  -- Whatever happened before: once the loop, still running, hears that a scan has failed, or that it has
  -- results and the request of "SCAN_RESULTS" returns, and the select's timer goes off or none is pending,
  -- no request waits, and every channel has been answered exactly as often as it came in.
  pub run_internal-drained :
      (c : ℕ) (wakes : List Wake) (d : Bytes) (p : Pending) (w w' : StaWorld)
      → run_internal s peer wakes no_pending w ≡ (ok (running p), w')
      → EndsScan w' d
      → (v : StaWorld) × (run_internal s peer
            (wakes ++ event (ok d) ∷ select_timeout ∷ [])
            no_pending
            w
          ≡ (ok (running no_pending), v))
        × (answered c v ≡ answered c w + count c (channels wakes))
  run_internal-drained c wakes d p w w' h ends =
      let tail_wakes = event (ok d) ∷ select_timeout ∷ [] in
      let (v, e) = drained p w' d ends in
      let all' : run_internal s peer (wakes ++ tail_wakes) no_pending w
          ≡ (ok (running no_pending), v) =
        run_internal-append wakes tail_wakes no_pending p w w' h ∙ e in
      let settled : Settled c (channels (wakes ++ tail_wakes)) w no_pending
          (ok (running no_pending), v) =
        subst (Settled c (channels (wakes ++ tail_wakes)) w no_pending) all'
          (run_internal-Settled c s peer (wakes ++ tail_wakes) no_pending w) in
      let none_new =
        ap (count c) (channels-append wakes tail_wakes ∙ append-nil (channels wakes)) in
      (v, all', omega (arith, settled, none_new))
