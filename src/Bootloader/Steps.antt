-- ===== src/Bootloader/Steps.antt =====
-- The parts of the handler on an environment given by its order and counters. `n`, the writes that
-- still succeed, is arbitrary: each lemma holds wherever the part is interrupted.
use sv08_mainline.Base.{ℕ, ◌≡◌, ◌≢◌, ◌⊎◌, true, Option, some, List, [], ◌∷◌, arith}
use sv08_mainline.Registry.{Slot}
use sv08_mainline.Bootloader.{
  Environment, Device, Operation, environment_valid, primary, select, disarm,
}

-- The parts of an environment, so that a proof can split on the order.
abbrev pub env : List Slot → ℕ → ℕ → Environment
env o a b = record { order = o; a_left = a; b_left = b }

abbrev pub dev : List Slot → ℕ → ℕ → ℕ → Device
dev o a b n = record { environment = env o a b; writes = n }

-- Disarming never moves the selection away from another slot, wherever its writes stop.
pub disarm_primary :
    (s p : Slot) (o : List Slot) (a b n : ℕ)
    → environment_valid (env o a b) ≡ true
    → p ≢ s
    → primary (env o a b) ≡ some p
    → primary (disarm (env o a b) s (dev o a b n)).1.environment ≡ some p
unfolding disarm environment_valid primary
disarm_primary s p (x ∷ []) a b n h ne e = ground arith
disarm_primary s p (x ∷ y ∷ []) a b n h ne e = ground arith
disarm_primary s p [] a b n h ne e = ground arith
disarm_primary s p (x ∷ y ∷ z ∷ r) a b n h ne e = ground arith

-- Selecting a slot moves the selection at once, from the old primary to that slot.
pub select_primary :
    (context : Option Operation) (s : Slot) (o : List Slot) (a b n : ℕ)
    → environment_valid (env o a b) ≡ true
    → let e = (select (env o a b) context s (dev o a b n)).1.environment in
      (primary e ≡ primary (env o a b)) ⊎ (primary e ≡ some s)
unfolding select environment_valid primary
select_primary context s (x ∷ []) a b n h = ground arith
select_primary context s (x ∷ y ∷ []) a b n h = ground arith
select_primary context s [] a b n h = ground arith
select_primary context s (x ∷ y ∷ z ∷ r) a b n h = ground arith
