-- ===== src/Sta/Life/Held.antt =====
-- Where a station of src/sta/mod.rs with its clients holds the sender of a channel, by what `run` is at.
use wifi_ctrl.Prelude.{ℕ, ◌+◌, ◌≤◌, count, ◌≡◌, ◌≢◌, ◌⊎◌, inl, inr, refl, arith}
use wifi_ctrl.Sta.Life.{
  Stage, idle, opens, connected, opens_events, attaches, resends, loops, gone, IsRunning,
}
use wifi_ctrl.Sta.Station.Balance.{waiting}
use wifi_ctrl.Sta.System.{brought}

-- How often the sender of channel `c` is held, by the request channel, which holds it `q` times, or by
-- `run`.
abbrev pub held_in : ℕ → Stage → ℕ → ℕ
held_in c (idle r) q = q
held_in c (opens n ds) q = q + count c (brought ds)
held_in c (connected ds) q = q + count c (brought ds)
held_in c (opens_events n ds es) q = q + count c (brought ds) + count c (brought es)
held_in c (attaches ds es) q = q + count c (brought ds) + count c (brought es)
held_in c (resends rs) q = q + count c (brought rs)
held_in c (loops p) q = q + waiting c p
held_in c gone q = 0

pub held_in-sent :
    (c : ℕ) (st : Stage) (q d : ℕ) → st ≢ gone → held_in c st (q + d) ≡ held_in c st q + d
held_in-sent c (idle r) q d up = refl
held_in-sent c (opens n ds) q d up = omega arith
held_in-sent c (connected ds) q d up = omega arith
held_in-sent c (opens_events n ds es) q d up = omega arith
held_in-sent c (attaches ds es) q d up = omega arith
held_in-sent c (resends rs) q d up = omega arith
held_in-sent c (loops p) q d up = omega arith
held_in-sent c gone q d up = absurd (up refl)

pub held_in-IsRunning : (c : ℕ) (st : Stage) (q : ℕ) → IsRunning st → q ≤ held_in c st q
held_in-IsRunning c (idle r) q up = elim up [ ]
held_in-IsRunning c (opens n ds) q up = omega arith
held_in-IsRunning c (connected ds) q up = omega arith
held_in-IsRunning c (opens_events n ds es) q up = omega arith
held_in-IsRunning c (attaches ds es) q up = omega arith
held_in-IsRunning c (resends rs) q up = omega arith
held_in-IsRunning c (loops p) q up = omega arith
held_in-IsRunning c gone q up = elim up [ ]

-- A channel that is answered `a` times and held `h` times, of a call that was made `n` times, when `e`
-- runs have ended.
abbrev pub OnceBy : ℕ → ℕ → ℕ → ℕ → Type 0
OnceBy a h n e = (a + h ≡ n) ⊎ ((1 ≤ e) × (a + h ≤ n))

pub keep :
    (a h n e a' h' n' e' : ℕ)
    → OnceBy a h n e
    → a' + h' + n ≡ a + h + n'
    → e ≤ e'
    → OnceBy a' h' n' e'
keep a h n e a' h' n' e' (inl o) k l = inl (omega arith)
keep a h n e a' h' n' e' (inr (b, o)) k l = inr (omega arith, omega arith)

pub lose :
    (a h n e a' h' n' e' : ℕ)
    → OnceBy a h n e
    → a' + h' + n ≤ a + h + n'
    → 1 ≤ e'
    → OnceBy a' h' n' e'
lose a h n e a' h' n' e' (inl o) k l = inr (l, omega arith)
lose a h n e a' h' n' e' (inr (b, o)) k l = inr (l, omega arith)
