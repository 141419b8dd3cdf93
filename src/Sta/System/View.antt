-- ===== src/Sta/System/View.antt =====
-- A state of the clients and the runner of src/sta, seen as a state of the service.
use wifi_ctrl.Prelude.{
  ℕ, ◌+◌, true, false, List, [], ◌∷◌, ◌++◌, Option, none, some, count, count-append, map, ◌≡◌, ◌≢◌,
  refl, ap, ◌∙◌, arith,
}
use mathlib.Core.Path.{subst}
use wifi_ctrl.Prelude.Bags.{bag, bag-Reordered, times, joined}
use wifi_ctrl.Socket.Channel.{Mpsc}
use wifi_ctrl.Sta.Client.{Request}
use wifi_ctrl.Sta.Station.{SelectRequest, Pending}
use wifi_ctrl.Sta.Station.Balance.{StaWorld, selecting, waiting, channel}
use wifi_ctrl.Sta.System.{Phase, looping, returned, dropped, System, brought}
use wifi_ctrl.Service.{Service, Serves, idle, invoke, abandon}

-- The channels that wait with the loop.
abbrev pub selected_channel : Option SelectRequest → List ℕ
selected_channel none = []
selected_channel (some s) = s.response ∷ []

abbrev pub waiting_channels : Pending → List ℕ
waiting_channels p = p.scan_requests ++ selected_channel p.select_request

abbrev pub answered_channels : StaWorld → List ℕ
answered_channels w = map (λ a. a.0) w.answers

-- The service, by the phase and the channels that the request channel holds.
abbrev pub service_at : Phase → List ℕ → List ℕ → ℕ → Service
service_at (looping p) q l n = record {
  fresh = n;
  open_calls = bag (q ++ waiting_channels p);
  replied = bag l;
  serving = true;
}
service_at (returned r) q l n = record {
  fresh = n;
  open_calls = bag q;
  replied = bag l;
  serving = false;
}
service_at dropped q l n = record {
  fresh = n;
  open_calls = bag [];
  replied = bag l;
  serving = false;
}

pub count-waiting_channels : (c : ℕ) (p : Pending) → count c (waiting_channels p) ≡ waiting c p
count-waiting_channels c p =
    count-append c p.scan_requests (selected_channel p.select_request)
    ∙ ap (λ k. count c p.scan_requests + k) (one p.select_request)
  where
    one : (o : Option SelectRequest) → count c (selected_channel o) ≡ selecting c o
    one none = refl
    one (some s) = omega arith

module _ {C : Type 0} (m : Mpsc Request C) where
  abbrev pub service : System C → Service
  service s = service_at s.phase (brought (m.queue s.ch)) (answered_channels s.world) s.fresh

-- Calls that come into the request channel are open.
pub service_at-invoke :
    (ph : Phase) (q q' l : List ℕ) (n : ℕ)
    → ph ≢ dropped
    → ((c : ℕ) → count c q' ≡ count c q + count c (n ∷ []))
    → Serves (service_at ph q l n) (service_at ph q' l (n + 1))
unfolding joined
service_at-invoke (looping p) q q' l n up h =
    subst
      (λ b.
        Serves (service_at (looping p) q l n)
          (record (service_at (looping p) q l (n + 1)) { open_calls = b }))
      (bag-Reordered (λ c. omega (
        arith,
        h c,
        count-append c q (waiting_channels p),
        count-append c q' (waiting_channels p),
      )))
      invoke
service_at-invoke (returned r) q q' l n up h =
    subst
      (λ b.
        Serves (service_at (returned r) q l n)
          (record (service_at (returned r) q l (n + 1)) { open_calls = b }))
      (bag-Reordered (λ c. omega (arith, h c))) invoke
service_at-invoke dropped q q' l n up h = absurd (up refl)

pub service_at-drop :
    (ph : Phase) (q l : List ℕ) (n : ℕ) → Serves (service_at ph q l n) (service_at dropped q l n)
unfolding joined times
service_at-drop (looping p) q l n = abandon (bag []) (λ c. omega arith)
service_at-drop (returned r) q l n = abandon (bag []) (λ c. omega arith)
service_at-drop dropped q l n = idle

pub brought-shutdown : (q : List Request) → brought (q ++ Request.shutdown ∷ []) ≡ brought q
brought-shutdown [] = refl
brought-shutdown (r ∷ q) = ap (λ l. channel r ++ l) (brought-shutdown q)
