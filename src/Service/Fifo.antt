-- ===== src/Service/Fifo.antt =====
-- A service that replies in the order in which it was called, and what is left of it when the order is
-- forgotten.
use mathlib.Core.Path.{subst}
use wifi_ctrl.Prelude.{
  ℕ, suc, ◌+◌, Bool, true, false, List, [], ◌∷◌, ◌++◌, onto, count-onto, count, count-append, ◌≡◌,
  ap, arith,
}
use wifi_ctrl.Prelude.Bags.{bag, bag-Reordered, joined, times}
use wifi_ctrl.Service.{Service, Serves}

-- `line` has the calls without a reply, the first first, and `replied` those with one, the last first.
pub record Fifo : Type 0 where
  pub fresh : ℕ
  pub line : List ℕ
  pub replied : List ℕ
  pub serving : Bool

pub data Queues (v : Fifo) : Fifo → Type 0 where
  idle : Queues v v
  invoke : Queues v (record v { fresh = suc v.fresh; line = v.line ++ v.fresh ∷ [] })
  reply :
      (cs rest : List ℕ)
      → v.serving ≡ true
      → v.line ≡ cs ++ rest
      → Queues v (record v { line = rest; replied = onto cs v.replied })
  -- The end of the service: the first calls get a reply, and the next may be dropped.
  stop :
      (cs lost rest : List ℕ)
      → v.serving ≡ true
      → v.line ≡ cs ++ (lost ++ rest)
      → Queues v (record v { line = rest; replied = onto cs v.replied; serving = false })
  -- Calls are dropped, and none gets a reply from now on.
  abandon :
      (lost rest : List ℕ)
      → v.line ≡ lost ++ rest
      → Queues v (record v { line = rest; serving = false })

-- The order is forgotten.
abbrev pub unordered : Fifo → Service
unordered v = record {
  fresh = v.fresh;
  open_calls = bag v.line;
  replied = bag v.replied;
  serving = v.serving;
}

bag-onto : (cs log : List ℕ) → joined cs (bag log) ≡ bag (onto cs log)
unfolding joined
bag-onto cs log = bag-Reordered (λ n. omega (arith, count-append n cs log, count-onto n cs log))

-- Whatever the first service does is allowed to the second.
pub Queues-Serves : (v u : Fifo) → Queues v u → Serves (unordered v) (unordered u)
unfolding joined times
Queues-Serves v u idle = Serves.idle
Queues-Serves v u invoke =
    let next : v.fresh + 1 ≡ suc v.fresh = omega arith in
    subst
      (λ n.
        Serves (unordered v)
          (record (unordered v) { fresh = n; open_calls = bag (v.line ++ v.fresh ∷ []) }))
      next
      (subst
        (λ b. Serves (unordered v) (record (unordered v) { fresh = v.fresh + 1; open_calls = b }))
        (bag-Reordered (λ n. omega (arith, count-append n v.line (v.fresh ∷ [])))) Serves.invoke)
Queues-Serves v u (reply cs rest on e) =
    subst (λ b. Serves (unordered v) (record (unordered v) { open_calls = bag rest; replied = b }))
      (bag-onto cs v.replied) (Serves.reply cs (bag rest) on (ap bag e))
Queues-Serves v u (stop cs lost rest on e) =
    subst
      (λ b.
        Serves (unordered v)
          (record (unordered v) { open_calls = bag rest; replied = b; serving = false }))
      (bag-onto cs v.replied)
      (Serves.stop cs (bag rest) on (λ n. omega (
        arith,
        ap (count n) e,
        count-append n cs (lost ++ rest),
        count-append n lost rest,
        count-append n cs rest,
      )))
Queues-Serves v u (abandon lost rest e) =
    Serves.abandon (bag rest) (λ n. omega (arith, ap (count n) e, count-append n lost rest))
