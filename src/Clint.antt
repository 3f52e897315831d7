-- ===== src/Clint.antt =====
-- include/clint.h: a device without state, whose operations have empty bodies.
use rremu.Base.{ℕ, Option}
use rremu.Action.{Action, pure}

-- `CLINT::Load`: the caller's variable stays as it was.
abbrev pub load : {S : Type 0} → ℕ → ℕ → Option ℕ → Action S (Option ℕ)
load addr size data' = pure data'

-- `CLINT::Store`
abbrev pub store : {S : Type 0} → ℕ → ℕ → ℕ → Action S (Unit {0})
store addr size data' = pure tt
