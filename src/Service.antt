-- ===== src/Service.antt =====
-- What a runner promises to the clients of src/sta/client.rs and src/ap/client.rs: a service that takes
-- calls, and replies to calls that it has taken. Where a call waits, and in what order calls wait, is
-- forgotten.
pub mod Fifo
use wifi_ctrl.Prelude.{ℕ, ◌+◌, Bool, true, false, List, [], ◌∷◌, ◌≡◌}
use wifi_ctrl.Prelude.Bags.{Bag, joined, ◌⊑◌}

-- `fresh` is the next call, `open_calls` are those without a reply, `replied` those with one.
pub record Service : Type 0 where
  pub fresh : ℕ
  pub open_calls : Bag
  pub replied : Bag
  pub serving : Bool

pub data Serves (v : Service) : Service → Type 0 where
  idle : Serves v v
  invoke :
      Serves v (record v { fresh = v.fresh + 1; open_calls = joined (v.fresh ∷ []) v.open_calls })
  reply :
      (cs : List ℕ) (rest : Bag)
      → v.serving ≡ true
      → v.open_calls ≡ joined cs rest
      → Serves v (record v { open_calls = rest; replied = joined cs v.replied })
  -- The end of the service: some calls get a reply, and of the others, some may be dropped.
  stop :
      (cs : List ℕ) (rest : Bag)
      → v.serving ≡ true
      → joined cs rest ⊑ v.open_calls
      → Serves v (record v { open_calls = rest; replied = joined cs v.replied; serving = false })
  -- Calls are dropped, and none gets a reply from now on.
  abandon :
      (rest : Bag)
      → rest ⊑ v.open_calls
      → Serves v (record v { open_calls = rest; serving = false })
