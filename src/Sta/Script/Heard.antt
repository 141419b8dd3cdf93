-- ===== src/Sta/Script/Heard.antt =====
-- Programs that use the runner of src/sta/mod.rs: which of their calls have an answer.
use wifi_ctrl.Prelude.{
  ℕ, ◌+◌, ◌≤◌, ◌<◌, ltb, ◌==◌, List, [], ◌∷◌, some, Result, ok, err, count, map, ◌++◌, ◌≡◌, inl,
  inr, refl, ap, arith, Bool-cases,
}
use wifi_ctrl.Errors.{SocketError}
use wifi_ctrl.Socket.Channel.{Mpsc}
use wifi_ctrl.Socket.Channel.Oneshot.{outcome_of, find_answer-unanswered}
use wifi_ctrl.Socket.World.{Peer}
use wifi_ctrl.Sta.Calls.{Call, Returned}
use wifi_ctrl.Sta.Client.{Request}
use wifi_ctrl.Sta.Loop.{Wake, request, event, select_timeout, Flow, running, stopped, step}
use wifi_ctrl.Sta.Loop.Gives.{step-Added}
use wifi_ctrl.Sta.Script.{
  App, at, waits_for, done, Program, IsRunners, Move, calls, call_refused, failed, stops_runner,
  stop_refused, finishes, serves, leaves,
}
use wifi_ctrl.Sta.Station.{Settings, Pending}
use wifi_ctrl.Sta.Station.Balance.{StaWorld, answered}
use wifi_ctrl.Sta.System.{
  System, settle, Step, call, ask_shutdown, take, hear, expire, drop, Reach, next, held, outcome,
  call_result,
}

-- A call that has its value was answered.
call_result-answered :
    {C : Type 0} (m : Mpsc Request C) (k : Call) (c : ℕ) (s : System C) (a : Returned k)
    → call_result k (outcome m c s) ≡ some (ok a)
    → 1 ≤ answered c s.world
unfolding call_result outcome_of
call_result-answered m k c s a h = elim (Bool-cases (ltb 0 (answered c s.world))) [
  | inl some_answer ↦ ground arith
  | inr no_answer ↦
      let unanswered = find_answer-unanswered c s.world.answers (ground arith) in
      elim (Bool-cases (held m c s == 0)) [
        | inl unheld ↦ let h' = rw (unanswered, unheld) at h in absurd cc
        | inr is_held ↦ let h' = rw (unanswered, is_held) at h in absurd cc
      ]
]

count-map-append :
    {A : Type 0} (f : A → ℕ) (c : ℕ) (l r : List A)
    → count c (map f (l ++ r)) ≡ count c (map f l) + count c (map f r)
count-map-append f c [] r = omega arith
count-map-append f c (x ∷ l) r = let rest = count-map-append f c l r in omega arith

-- A round takes no answer back.
step-answered :
    (set : Settings) (peer : Peer) (wake : Wake) (p : Pending) (w : StaWorld) (c : ℕ)
    → answered c w ≤ answered c (step set peer wake p w).1
step-answered set peer wake p w c =
    let (new, e, _) = step-Added set peer wake p w in
    let same : answered c (step set peer wake p w).1 ≡ count c (map (λ a. a.0) (new ++ w.answers)) =
      ap (λ l. count c (map (λ a. a.0) l)) e in
    let split_at = count-map-append (λ a. a.0) c new w.answers in omega (arith, same, split_at)

-- The calls that have their answer, of `n` that were made, by where the program stands.
abbrev pub Heard : App → ℕ → StaWorld → Type 0
Heard (at script) n w = (c : ℕ) → c < n → 1 ≤ answered c w
Heard (waits_for k d f) n w = (n ≡ d + 1) × ((c : ℕ) → c < d → 1 ≤ answered c w)
Heard (done (ok x)) n w = (c : ℕ) → c < n → 1 ≤ answered c w
Heard (done (err e)) n w = Unit {0}

Heard-more :
    (a : App) (n : ℕ) (w w' : StaWorld)
    → ((c : ℕ) → answered c w ≤ answered c w')
    → Heard a n w
    → Heard a n w'
Heard-more (at script) n w w' more h = λ c l. omega (arith, more c, h c l)
Heard-more (waits_for k d f) n w w' more (e, h) = (e, λ c l. omega (arith, more c, h c l))
Heard-more (done (ok x)) n w w' more h = λ c l. omega (arith, more c, h c l)
Heard-more (done (err e)) n w w' more h = tt

settle-world :
    {C : Type 0} (s : System C) (x : Result SocketError Flow × StaWorld)
    → ((settle s x).world ≡ x.1) × ((settle s x).fresh ≡ s.fresh)
settle-world s (ok (running p), w) = (refl, refl)
settle-world s (ok (stopped p), w) = (refl, refl)
settle-world s (err e, w) = (refl, refl)

module _ {C : Type 0} (m : Mpsc Request C) (set : Settings) (peer : Peer) where
  settle-Heard :
      (a : App) (s : System C) (wake : Wake) (p : Pending)
      → Heard a s.fresh s.world
      → Heard a
          (settle s (step set peer wake p s.world)).fresh
          (settle s (step set peer wake p s.world)).world
  settle-Heard a s wake p h =
      let (w_is, n_is) = settle-world s (step set peer wake p s.world) in
      rw (w_is, n_is)
        (Heard-more a s.fresh s.world (step set peer wake p s.world).1
          (step-answered set peer wake p s.world) h)

  Step-Heard :
      {s t : System C} (a : App) (st : Step m set peer s t)
      → IsRunners m set peer st
      → Heard a s.fresh s.world
      → Heard a t.fresh t.world
  Step-Heard {s} a (take p r ch' up e) i h =
      settle-Heard a (record s { ch = ch' }) (request (some r)) p h
  Step-Heard {s} a (hear p d up) i h = settle-Heard a s (event d) p h
  Step-Heard {s} a (expire p up) i h = settle-Heard a s select_timeout p h
  Step-Heard a (call k ch' up e) i h = elim i [ ]
  Step-Heard a (ask_shutdown ch' up e) i h = elim i [ ]
  Step-Heard a drop i h = elim i [ ]

  pub Move-Heard :
      {s t : Program C}
      → Move m set peer s t
      → Heard s.app s.system.fresh s.system.world
      → Heard t.app t.system.fresh t.system.world
  Move-Heard {s} (calls k f ch' e up sends) h = let h' = rw e at h in (refl, h')
  Move-Heard (call_refused k f e gone) h = tt
  Move-Heard {s} (Move.answered k c f a e r) h =
      let (n_is, h') = rw e at h in
      let own = call_result-answered m k c s.system a r in
      λ d l. elim (Bool-cases (d == c)) [
        | inl same ↦ let is : d ≡ c = ground arith in rw is own
        | inr other ↦ h' d (ground (arith, n_is))
      ]
  Move-Heard (failed k c f x e r) h = tt
  Move-Heard (stops_runner rest ch' e up sends) h = let h' = rw e at h in h'
  Move-Heard (stop_refused rest e gone) h = tt
  Move-Heard (finishes e) h = let h' = rw e at h in h'
  Move-Heard {s} (serves t st i) h = Step-Heard s.app st i h
  Move-Heard (leaves r e) h = h

  -- What clients and the runner do, without the program.
  pub Move-Reach :
      {s t : Program C} {u : System C}
      → Move m set peer s t
      → Reach m set peer u s.system
      → Reach m set peer u t.system
  Move-Reach (calls k f ch' e up sends) r = next r (call k ch' up sends)
  Move-Reach (call_refused k f e gone) r = r
  Move-Reach (Move.answered k c f a e got_it) r = r
  Move-Reach (failed k c f x e got_it) r = r
  Move-Reach (stops_runner rest ch' e up sends) r = next r (ask_shutdown ch' up sends)
  Move-Reach (stop_refused rest e gone) r = r
  Move-Reach (finishes e) r = r
  Move-Reach (serves t st i) r = next r st
  Move-Reach (leaves x e) r = next r drop
